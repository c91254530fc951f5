-- ===== src/Command/Commands.antt =====
-- mcstatus/__main__.py: the commands, over the requests of the servers.
use mcstatus_rust.Prelude.{ℕ, true, false, Option, none, some, ◌∷◌, ◌++◌, codes, if◌then◌else◌}
use mcstatus_rust.Prelude.Int.{pos}
use mcstatus_rust.Prelude.Exec.{
  Exc, Exec, Result, ok, err, timeout_error, assertion_error, pure, raise, lift, catch, ◌>>=◌, ◌>>◌,
}
use mcstatus_rust.Server.{JavaServer}
use mcstatus_rust.Server.Requests.{is_exception}
use mcstatus_rust.Response.Query.{QueryResponse, item}
use mcstatus_rust.Command.Output.{
  SupportedServer, java, legacy, bedrock, Status, Report, Requests, Console, format_motd, kind,
  latency_of, version_of, players_of, motd_of, player_sample,
}

-- `try: … except Exception as e`: the result or the exception.
module _ {S A : Type 0} where
  abbrev pub outcome : Result A × S → Result (Result A) × S
  outcome (ok a, s) = (ok (ok a), s)
  outcome (err e, s) = if is_exception e then (ok (err e), s) else (err e, s)

  unfoldable pub attempt : Exec S A → Exec S (Result A)
  attempt m s = outcome (m s)

abbrev pub found : {A : Type 0} → Result A → Option A
found (ok a) = some a
found (err e) = none

abbrev pub failure : {A : Type 0} → Result A → Option Exc
failure (ok a) = none
failure (err e) = some e

-- `exn or e`
abbrev pub or_else : Option Exc → Option Exc → Option Exc
or_else none e = e
or_else (some x) e = some x

module _ {S Latency : Type 0} (requests : Requests S Latency) (console : Console S Latency) where
  abbrev pub warn_latency : JavaServer → Exc → Exec S Latency
  warn_latency server ping_exc = do
    response ← requests.status (java server) 3
    console.print_error (
        codes "warning: contacting "
        ++ server.address.host
        ++ b':' ∷ console.str_int (pos server.address.port)
        ++ codes " failed with a 'ping' packet but succeeded with a 'status' packet,\n"
        ++ codes "         this is likely a bug in the server-side implementation.\n"
        ++ codes "         (note: ping packet failed due to \""
        ++ console.str_exception ping_exc
        ++ codes "\")\n"
        ++ codes
            "         for more details, see: https://mcstatus.readthedocs.io/en/stable/pages/faq/\n")
    pure (latency_of response)

  abbrev pub or_warn : JavaServer → Result Latency → Exec S Latency
  or_warn server (ok latency) = pure latency
  or_warn server (err e) = warn_latency server e

  -- `_ping_with_fallback`
  unfoldable pub ping_with_fallback : SupportedServer → Exec S Latency
  unfolding attempt
  ping_with_fallback (java server) = do
    pinged ← attempt (requests.ping server 1)
    or_warn server pinged
  ping_with_fallback (legacy server) = do
    response ← requests.status (legacy server) 3
    pure (latency_of response)
  ping_with_fallback (bedrock server) = do
    response ← requests.status (bedrock server) 3
    pure (latency_of response)

  unfoldable pub ping_cmd : SupportedServer → Exec S ℕ
  unfolding ping_with_fallback
  ping_cmd server = do
    latency ← ping_with_fallback server
    console.print (console.str_latency latency)
    pure 0

  unfoldable pub status_cmd : SupportedServer → Exec S ℕ
  unfolding kind format_motd
  status_cmd server = do
    response ← requests.status server 3
    console.print (
        codes "version: "
        ++ kind server
        ++ b' ' ∷ (version_of response).0
        ++ codes " (protocol "
        ++ console.str_int (version_of response).1
        ++ codes ")")
    motd ← lift (format_motd (motd_of response))
    console.print (codes "motd:" ++ motd)
    console.print (
        codes "players: "
        ++ console.str_int (players_of response).0
        ++ b'/' ∷ console.str_int (players_of response).1
        ++ player_sample response)
    console.print (codes "ping: " ++ console.two_places (latency_of response) ++ codes " ms")
    pure 0

  -- Only a Java server is queried.
  abbrev pub query_of : SupportedServer → Exec S (Option QueryResponse)
  query_of (java server) = do response ← requests.query server 1; pure (some response)
  query_of (legacy server) = pure none
  query_of (bedrock server) = pure none

  abbrev pub flat : Option (Option QueryResponse) → Option QueryResponse
  flat none = none
  flat (some q) = q

  -- The dict, unless the assertion fails.
  abbrev pub report_of :
      SupportedServer
      → Option (Status Latency)
      → Option QueryResponse
      → Option Exc
      → Result (Report Latency)
  report_of server none none none = err assertion_error
  report_of server none none (some e) =
      ok
        (record { online = false; kind = kind server; error = some e; status = none; query = none })
  report_of server (some s) query exn =
      ok
        (record { online = true; kind = kind server; error = none; status = some s; query = query })
  report_of server none (some q) exn =
      ok (record { online = true; kind = kind server; error = none; status = none; query = some q })

  unfoldable pub json_cmd : SupportedServer → Exec S ℕ
  unfolding attempt kind
  json_cmd server = do
    status ← attempt (requests.status server 1)
    query ← attempt (query_of server)
    report ← lift (
        report_of server (found status) (flat (found query))
          (or_else (failure status) (failure query)))
    console.dump report
    pure 0

  -- What `query_cmd` prints of a response.
  unfoldable pub print_query : JavaServer → QueryResponse → Exec S ℕ
  unfolding kind format_motd item
  print_query server response = do
    host ← lift (item response.raw (codes "hostip"))
    port ← lift (item response.raw (codes "hostport"))
    console.print (codes "host: " ++ host ++ b':' ∷ port)
    console.print (
        codes "software: "
        ++ kind (java server)
        ++ b' ' ∷ response.software.version
        ++ b' ' ∷ response.software.brand)
    motd ← lift (format_motd response.motd)
    console.print (codes "motd:" ++ motd)
    console.print (codes "plugins: " ++ console.str_list response.software.plugins)
    console.print (
        codes "players: "
        ++ console.str_int response.players.online
        ++ b'/' ∷ console.str_int response.players.max
        ++ b' ' ∷ console.str_list response.players.list)
    pure 0

  abbrev pub query_failed : Exc → Exec S (Option QueryResponse)
  query_failed timeout_error = do
    console.print_error (
        codes "The server did not respond to the query protocol."
        ++ codes "\nPlease ensure that the server has enable-query turned on,"
        ++ codes
            " and that the necessary port (same as server-port unless query-port is set) is open in any firewall(s)."
        ++ codes "\nSee https://minecraft.wiki/w/Query for further information.")
    pure none
  query_failed e = raise e

  abbrev pub or_one : JavaServer → Option QueryResponse → Exec S ℕ
  or_one server none = pure 1
  or_one server (some response) = print_query server response

  unfoldable pub query_cmd : SupportedServer → Exec S ℕ
  unfolding print_query
  query_cmd (java server) = do
    response ← catch (do r ← requests.query server 3; pure (some r)) query_failed
    or_one server response
  query_cmd (legacy server) = do
    console.print_error (codes "The 'query' protocol is only supported by Java servers.")
    pure 1
  query_cmd (bedrock server) = do
    console.print_error (codes "The 'query' protocol is only supported by Java servers.")
    pure 1
