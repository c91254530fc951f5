-- ===== src/Net.antt =====
-- mcstatus/_net: addresses and the DNS lookups behind them. `urllib.parse`, `ipaddress` and `dns` are
-- parameters.
pub mod Laws
use mcstatus_rust.Prelude.{
  ℕ, ◌+◌, ◌≤◌, String, Bool, true, false, ◌&&◌, ◌||◌, Option, none, some, List, [], ◌∷◌, ◌++◌,
  codes, ltb, ◌=s=◌, ◌==◌, if◌then◌else◌,
}
use mcstatus_rust.Prelude.Int.{ℤ, pos, negsuc}
use mcstatus_rust.Prelude.Exec.{
  Exc, Exec, Result, ok, err, value_error, nx_domain, no_answer, bind_result, pure, raise, lift,
  ◌>>=◌, ◌>>◌,
}
use mcstatus_rust.Io.Text.{Str}

-- The libraries: `urlparse("//" + address)` gives a host, if there is one, and a port, or a
-- `ValueError`; `ip_address` gives the address or `none` for its `ValueError`; the resolver gives the
-- answers to an A or SRV query, as host texts and ports, or raises.
pub record Libraries : Type 1 where
  pub Ip : Type 0
  pub urlparse : Str → Result (Option Str × Option ℕ)
  pub ip_address : Str → Option Ip
  pub resolve_a : Str → Result Str
  pub resolve_srv : Str → Result (Str × ℕ)
  -- `sys.platform == "darwin"`
  pub darwin : Bool

pub record Address : Type 0 where
  pub host : Str
  pub port : ℕ

-- `Address(host, port)`: `_ensure_validity` on a text and an integer.
unfoldable pub address : Str → ℤ → Result Address
address host (negsuc n) = err value_error
address host (pos n) =
    if ltb 65535 n then err value_error else ok (record { host = host; port = n })

unfoldable pub from_tuple : Str × ℤ → Result Address
from_tuple tup = address tup.0 tup.1

-- `str.rstrip(".")`
unfoldable pub rstrip_dots : Str → Str
rstrip_dots [] = []
rstrip_dots (c ∷ s) =
    let rest = rstrip_dots s in
    elim rest [ [] ↦ if c == b'.' then [] else c ∷ [] | d ∷ t ↦ c ∷ d ∷ t ]

-- An address object: the tuple and the cached IP.
pub record Cached (Ip : Type 0) : Type 0 where
  pub address : Address
  pub cached_ip : Option Ip

abbrev host_of : Option Str × Option ℕ → Result (Str × Option ℕ)
host_of (none, port) = err value_error
host_of (some [], port) = err value_error
host_of (some (c ∷ s), port) = ok (c ∷ s, port)

-- The exceptions of the two missing-record cases.
abbrev pub is_missing : Exc → Bool
is_missing nx_domain = true
is_missing no_answer = true
is_missing e = false

module _ (lib : Libraries) where
  -- `_valid_urlparse`
  unfoldable pub valid_urlparse : Str → Result (Str × Option ℕ)
  valid_urlparse address = bind_result (lib.urlparse address) host_of

  -- `port`, or else `default_port`
  abbrev pub with_default : Option ℤ → Str × Option ℕ → Result Address
  with_default default_port (hostname, some port) = address hostname (pos port)
  with_default none (hostname, none) = err value_error
  with_default (some port) (hostname, none) = address hostname port

  -- `Address.parse_address`
  unfoldable pub parse_address : Option ℤ → Str → Result Address
  unfolding valid_urlparse address
  parse_address default_port string =
      bind_result (valid_urlparse string) (with_default default_port)

  -- `resolve_a_record`
  unfoldable pub resolve_a_record : Str → Result Str
  unfolding rstrip_dots
  resolve_a_record hostname =
      bind_result (lib.resolve_a hostname) (λ answer. ok (rstrip_dots answer))

  -- `resolve_srv_record`
  unfoldable pub resolve_srv_record : Str → Result (Str × ℕ)
  unfolding rstrip_dots
  resolve_srv_record query_name =
      bind_result (lib.resolve_srv query_name) (λ answer. ok (rstrip_dots answer.0, answer.1))

  -- `resolve_mc_srv`
  unfoldable pub resolve_mc_srv : Str → Result (Str × ℕ)
  unfolding resolve_srv_record
  resolve_mc_srv hostname = resolve_srv_record (codes "_minecraft._tcp." ++ hostname)

  abbrev pub ip_or_error : Option lib.Ip → Result lib.Ip
  ip_or_error none = err value_error
  ip_or_error (some ip) = ok ip

  -- The IP of a host, past the cache; `original` is `self.host` and `host` what stands for it.
  abbrev pub ip_of : Option lib.Ip → Str → Result lib.Ip
  ip_of (some ip) original = ok ip
  ip_of none original =
      bind_result (resolve_a_record original) (λ text. ip_or_error (lib.ip_address text))

  unfoldable pub lookup_ip : Str → Result lib.Ip
  unfolding resolve_a_record
  lookup_ip original =
      let host =
        (if original =s= codes "localhost" && lib.darwin then codes "127.0.0.1" else original) in
      ip_of (lib.ip_address host) original

  abbrev pub store_ip : Result lib.Ip → Cached lib.Ip → Result lib.Ip × Cached lib.Ip
  store_ip (ok ip) self = (ok ip, record self { cached_ip = some ip })
  store_ip (err e) self = (err e, self)

  -- `Address.resolve_ip`
  unfoldable pub resolve_ip : Exec (Cached lib.Ip) lib.Ip
  unfolding lookup_ip
  resolve_ip self = elim self.cached_ip [
    | some ip ↦ (ok ip, self)
    | none ↦ store_ip (lookup_ip self.address.host) self
  ]

  abbrev pub or_default : Option ℤ → Str → Result (Str × ℕ) → Result Address
  or_default default_port host (ok (target, port)) = address target (pos port)
  or_default none host (err e) = if is_missing e then err value_error else err e
  or_default (some port) host (err e) = if is_missing e then address host port else err e

  abbrev pub srv_lookup : Option ℤ → Str × Option ℕ → Result Address
  srv_lookup default_port (host, some port) = address host (pos port)
  srv_lookup default_port (host, none) = or_default default_port host (resolve_mc_srv host)

  -- `minecraft_srv_address_lookup`
  unfoldable pub minecraft_srv_address_lookup : Option ℤ → Str → Result Address
  unfolding valid_urlparse resolve_mc_srv address
  minecraft_srv_address_lookup default_port string =
      bind_result (valid_urlparse string) (srv_lookup default_port)
