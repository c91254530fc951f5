-- ===== src/Net/Laws.antt =====
-- mcstatus/_net: ports, lookups and the cache of an address.
use mcstatus_rust.Prelude.{
  ℕ, ◌≤◌, ◌≡◌, refl, ap, subst, Bool, true, false, Option, none, some, ltb, arith, Bool-cases, inl,
  inr, if◌then◌else◌,
}
use mcstatus_rust.Prelude.Int.{ℤ, pos, negsuc}
use mcstatus_rust.Prelude.Exec.{Result, ok, err, value_error, bind_result-eq-ok}
use mcstatus_rust.Io.Text.{Str}
use mcstatus_rust.Net.{
  Libraries, Address, address, Cached, valid_urlparse, with_default, parse_address, resolve_mc_srv,
  minecraft_srv_address_lookup, resolve_ip, lookup_ip, store_ip, is_missing, srv_lookup, or_default,
}

guarded :
    (b : Bool) (x a : Address)
    → (if b then err value_error else ok x) ≡ ok a
    → (b ≡ false) × (x ≡ a)
guarded true x a h = cc
guarded false x a h = (refl, cc)

-- An address that is made has its port in range.
address_port : (host : Str) (port : ℤ) (a : Address) → address host port ≡ ok a → a.port ≤ 65535
unfolding address
address_port host (negsuc n) a h = cc
address_port host (pos n) a h =
    let (low, e) = guarded (ltb 65535 n) _ a h in
    let le : n ≤ 65535 = ground arith in subst (λ x. x.port ≤ 65535) e le

module _ (lib : Libraries) where
  with_default_port :
      (d : Option ℤ) (p : Str × Option ℕ) (a : Address)
      → with_default lib d p ≡ ok a
      → a.port ≤ 65535
  with_default_port d (h, some n) a e = address_port h (pos n) a e
  with_default_port none (h, none) a e = cc
  with_default_port (some n) (h, none) a e = address_port h n a e

  -- An address that `parse_address` returns has a port of 16 bits.
  pub parse_address-port :
      (default_port : Option ℤ) (string : Str) (a : Address)
      → parse_address lib default_port string ≡ ok a
      → a.port ≤ 65535
  unfolding parse_address
  parse_address-port default_port string a h =
      let (p, e, f) =
        bind_result-eq-ok (valid_urlparse lib string) (with_default lib default_port) h in
      with_default_port default_port p a f

  srv_lookup-port :
      (d : Option ℤ) (p : Str × Option ℕ) (a : Address) → srv_lookup lib d p ≡ ok a → a.port ≤ 65535
  srv_lookup-port d (h, some n) a e = address_port h (pos n) a e
  srv_lookup-port d (h, none) a e = found d h (resolve_mc_srv lib h) e
    where
      found :
          (d : Option ℤ) (h : Str) (r : Result (Str × ℕ))
          → or_default lib d h r ≡ ok a
          → a.port ≤ 65535
      found d h (ok (t, n)) e = address_port t (pos n) a e
      found none h (err x) e = elim (Bool-cases (is_missing x)) [
        | inl m ↦ ground arith
        | inr m ↦ ground arith
      ]
      found (some n) h (err x) e = elim (Bool-cases (is_missing x)) [
        | inl m ↦ address_port h n a (ground arith)
        | inr m ↦ ground arith
      ]

  -- So does an address that the lookup returns.
  pub minecraft_srv_address_lookup-range :
      (default_port : Option ℤ) (string : Str) (a : Address)
      → minecraft_srv_address_lookup lib default_port string ≡ ok a
      → a.port ≤ 65535
  unfolding minecraft_srv_address_lookup
  minecraft_srv_address_lookup-range default_port string a h =
      let (p, e, f) =
        bind_result-eq-ok (valid_urlparse lib string) (srv_lookup lib default_port) h in
      srv_lookup-port default_port p a f

  -- With a port in the address, the lookup is the parse and asks no resolver.
  pub minecraft_srv_address_lookup-port :
      (default_port : Option ℤ) (string host : Str) (port : ℕ)
      → valid_urlparse lib string ≡ ok (host, some port)
      → (minecraft_srv_address_lookup lib default_port string ≡ address host (pos port))
        × (parse_address lib default_port string ≡ address host (pos port))
  unfolding minecraft_srv_address_lookup parse_address
  minecraft_srv_address_lookup-port d string host port h = (rw h refl, rw h refl)

  after_store :
      (r : Result lib.Ip) (s : Cached lib.Ip) (ip : lib.Ip)
      → (store_ip lib r s).0 ≡ ok ip
      → resolve_ip lib (store_ip lib r s).1 ≡ (ok ip, (store_ip lib r s).1)
  unfolding resolve_ip
  after_store (ok x) s ip h = ap (λ r. (r, record s { cached_ip = some x })) h
  after_store (err e) s ip h = cc

  again_at :
      (a : Address) (o : Option lib.Ip) (ip : lib.Ip)
      → (resolve_ip lib (record { address = a; cached_ip = o })).0 ≡ ok ip
      → resolve_ip lib (resolve_ip lib (record { address = a; cached_ip = o })).1
        ≡ (ok ip, (resolve_ip lib (record { address = a; cached_ip = o })).1)
  unfolding resolve_ip
  again_at a (some x) ip h = ap (λ r. (r, record { address = a; cached_ip = some x })) h
  again_at a none ip h =
      after_store (lookup_ip lib a.host) (record { address = a; cached_ip = none }) ip h

  -- After `resolve_ip` has returned an IP, a second call returns the same one from the cache and
  -- changes nothing.
  pub resolve_ip-cached :
      (self : Cached lib.Ip) (ip : lib.Ip)
      → (resolve_ip lib self).0 ≡ ok ip
      → resolve_ip lib (resolve_ip lib self).1 ≡ (ok ip, (resolve_ip lib self).1)
  resolve_ip-cached self ip h = again_at self.address self.cached_ip ip h
