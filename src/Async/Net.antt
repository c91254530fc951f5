-- ===== src/Async/Net.antt =====
-- mcstatus/_net: the asynchronous lookups. The resolver is a parameter; what does not ask it is shared
-- with the synchronous functions.
pub mod Runs
use mcstatus_rust.Prelude.{ℕ, ◌&&◌, Option, none, some, ◌++◌, codes, ◌=s=◌, if◌then◌else◌}
use mcstatus_rust.Prelude.Int.{ℤ, pos}
use mcstatus_rust.Prelude.Exec.{Exc, ok, value_error}
use mcstatus_rust.Io.Text.{Str}
use mcstatus_rust.Net.{
  Libraries, Address, address, valid_urlparse, rstrip_dots, is_missing, ip_or_error,
}
use mcstatus_rust.Async.Task.{Task, pure, raise, lift, catch, ◌>>=◌, ◌>>◌}

-- `dns.asyncresolver`, the first answer to a query of either kind.
pub record AsyncResolver (Op : Type 0) (Answer : Op → Type 0) : Type 0 where
  pub resolve_a : Str → Task Op Answer Str
  pub resolve_srv : Str → Task Op Answer (Str × ℕ)

module _ {Op : Type 0} {Answer : Op → Type 0} (dns : AsyncResolver Op Answer) where
  unfoldable pub async_resolve_a_record : Str → Task Op Answer Str
  async_resolve_a_record hostname = do answer ← dns.resolve_a hostname; pure (rstrip_dots answer)

  unfoldable pub async_resolve_srv_record : Str → Task Op Answer (Str × ℕ)
  async_resolve_srv_record query_name = do
    answer ← dns.resolve_srv query_name
    pure (rstrip_dots answer.0, answer.1)

  unfoldable pub async_resolve_mc_srv : Str → Task Op Answer (Str × ℕ)
  unfolding async_resolve_srv_record
  async_resolve_mc_srv hostname = async_resolve_srv_record (codes "_minecraft._tcp." ++ hostname)

  module _ (lib : Libraries) where
    -- The attribute `_cached_ip` is read and set by operations too, for others may hold the address.
    module _ (cached_ip : Task Op Answer (Option lib.Ip))
        (store_ip : lib.Ip → Task Op Answer (Unit {0})) where
      abbrev pub async_ip_of : Option lib.Ip → Str → Task Op Answer lib.Ip
      async_ip_of (some ip) original = pure ip
      async_ip_of none original = do
        text ← async_resolve_a_record original
        lift (ip_or_error lib (lib.ip_address text))

      abbrev pub async_past_cache : Option lib.Ip → Str → Task Op Answer lib.Ip
      async_past_cache (some ip) original = pure ip
      async_past_cache none original = do
        let host =
            (if original =s= codes "localhost" && lib.darwin then codes "127.0.0.1" else original)
        ip ← async_ip_of (lib.ip_address host) original
        store_ip ip
        pure ip

      -- `Address.async_resolve_ip` of an address with the given host
      unfoldable pub async_resolve_ip : Str → Task Op Answer lib.Ip
      unfolding async_resolve_a_record
      async_resolve_ip host = do cached ← cached_ip; async_past_cache cached host

    abbrev pub missing_record : Option ℤ → Str → Exc → Task Op Answer Address
    missing_record none host e = raise (if is_missing e then value_error else e)
    missing_record (some port) host e = if is_missing e then lift (address host port) else raise e

    abbrev pub async_srv_lookup : Option ℤ → Str × Option ℕ → Task Op Answer Address
    async_srv_lookup default_port (host, some port) = lift (address host (pos port))
    async_srv_lookup default_port (host, none) = do
      found ←
          catch (do target ← async_resolve_mc_srv host; pure (address target.0 (pos target.1)))
            (λ e. do a ← missing_record default_port host e; pure (ok a))
      lift found

    -- `async_minecraft_srv_address_lookup`
    unfoldable pub async_minecraft_srv_address_lookup : Option ℤ → Str → Task Op Answer Address
    unfolding async_resolve_mc_srv
    async_minecraft_srv_address_lookup default_port string = do
      parsed ← lift (valid_urlparse lib string)
      async_srv_lookup default_port parsed
