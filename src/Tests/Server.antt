-- ===== src/Tests/Server.antt =====
-- The servers at concrete inputs, in a small world of sockets.
use mcstatus_rust.Prelude.{ℕ, ◌≡◌, Option, none, some, [], ◌∷◌}
use mcstatus_rust.Prelude.Int.{pos}
use mcstatus_rust.Prelude.Exec
use mcstatus_rust.Prelude.Exec.{Exec, ok, err, bind_result}
use mcstatus_rust.Net.{Cached, parse_address, minecraft_srv_address_lookup, resolve_ip}
use mcstatus_rust.Server.{
  java_default_port, bedrock_default_port, lookup_java, lookup_legacy, lookup_bedrock,
}
use mcstatus_rust.Server.Requests.{ping, status, retry_query, legacy_status}
use mcstatus_rust.Server.Ports.{default_query_port, lookup-accepts}
use mcstatus_rust.Async.Task.{Runs, Runs-perform, run, perform}
use mcstatus_rust.Async.Net.{async_resolve_ip}
use mcstatus_rust.Async.Net.Runs.{run-async_resolve_ip}
use mcstatus_rust.Async.Server.{
  async_ping, async_status, legacy_async_status, retry_async_query, async_lookup_java,
  async_lookup_legacy,
}
use mcstatus_rust.Async.Server.Runs.{requests-Runs, retry_query-Runs, lookups-Runs}
use mcstatus_rust.Tests.Network.{libraries, home, unresolved}
use mcstatus_rust.Tests.World.{
  World, sockets, outside, serve, for_cache, for_unit, async_sockets, async_outside,
  outside-IsOutside, sockets-IsNetwork, sockets-IsDatagrams, resolver, resolver-IsResolver,
}

-- Some bytes have come in, and no socket is open.
abbrev start : World
start = record { incoming = 1 ∷ 2 ∷ []; sent = []; open_count = 0 }

lookup-accepts_example :
    (lookup_java libraries (b'h' ∷ [])
      ≡ bind_result
          (minecraft_srv_address_lookup libraries (some (pos java_default_port)) (b'h' ∷ []))
          (λ a. ok (record { address = a; query_port = default_query_port a.port })))
    × (lookup_legacy libraries (b'h' ∷ [])
        ≡ minecraft_srv_address_lookup libraries (some (pos java_default_port)) (b'h' ∷ []))
    × (lookup_bedrock libraries (b'h' ∷ [])
        ≡ parse_address libraries (some (pos bedrock_default_port)) (b'h' ∷ []))
lookup-accepts_example = lookup-accepts libraries (b'h' ∷ [])

requests-Runs_example :
    Runs serve
      (async_ping async_sockets async_outside home 3 (pos 47) none)
      (ping sockets outside home 3 (pos 47) none)
    × Runs serve
        (async_status async_sockets async_outside home 3 (pos 47) none)
        (status sockets outside home 3 (pos 47) none)
    × Runs serve
        (legacy_async_status async_sockets async_outside home 3)
        (legacy_status sockets outside home 3)
requests-Runs_example = requests-Runs outside-IsOutside sockets-IsNetwork home 3 (pos 47) none

retry_query-Runs_example :
    Runs serve
      (retry_async_query async_sockets async_outside home 3)
      (retry_query sockets outside 5 home 3)
retry_query-Runs_example =
    retry_query-Runs outside-IsOutside 4 home (sockets-IsDatagrams home.host home.port) 3

lookups-Runs_example :
    Runs {S = World} serve
      (async_lookup_java resolver libraries (b'h' ∷ []))
      (Exec.lift (lookup_java libraries (b'h' ∷ [])))
    × Runs {S = World} serve
        (async_lookup_legacy resolver libraries (b'h' ∷ []))
        (Exec.lift (lookup_legacy libraries (b'h' ∷ [])))
lookups-Runs_example = lookups-Runs resolver-IsResolver (b'h' ∷ [])

-- The cache of an address, behind `await`.
abbrev load : Exec (Cached ℕ) (Option ℕ)
load self = (ok self.cached_ip, self)

abbrev store : ℕ → Exec (Cached ℕ) (Unit {0})
store ip self = (ok tt, record self { cached_ip = some ip })

run-async_resolve_ip_example :
    run serve
      (async_resolve_ip resolver libraries
        (perform (for_cache load))
        (λ ip. perform (for_unit (store ip)))
        home.host)
      unresolved
    ≡ resolve_ip libraries unresolved
run-async_resolve_ip_example =
    run-async_resolve_ip resolver libraries resolver-IsResolver (perform (for_cache load))
      (λ ip. perform (for_unit (store ip))) (Runs-perform (for_cache load))
      (λ ip. Runs-perform (for_unit (store ip))) unresolved
