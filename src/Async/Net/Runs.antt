-- ===== src/Async/Net/Runs.antt =====
-- mcstatus/_net: the asynchronous lookups and the synchronous ones.
use mcstatus_rust.Prelude.{
  Bool-cases, inl, inr, ℕ, ◌≡◌, refl, ap, ◌∙◌, Bool, true, false, Option, none, some, ◌++◌, codes,
  if◌then◌else◌,
}
use mcstatus_rust.Prelude.Int.{ℤ, pos}
use mcstatus_rust.Prelude.Exec
use mcstatus_rust.Prelude.Exec.{Exc, Exec, next, Result, ok, err, value_error, bind_result}
use mcstatus_rust.Io.Text.{Str}
use mcstatus_rust.Net.{
  Libraries, Address, address, Cached, valid_urlparse, rstrip_dots, is_missing, ip_or_error,
  resolve_a_record, resolve_srv_record, resolve_mc_srv, minecraft_srv_address_lookup, srv_lookup,
  or_default, resolve_ip, lookup_ip, ip_of, store_ip,
}
use mcstatus_rust.Async.Task.{
  Task, pure, raise, lift, ◌>>=◌, run, run-bind, Runs, Runs-pure, Runs-lift, Runs-bind, Runs-catch,
}
use mcstatus_rust.Async.Net.{
  AsyncResolver, async_resolve_a_record, async_resolve_srv_record, async_resolve_mc_srv,
  async_minecraft_srv_address_lookup, async_srv_lookup, missing_record, async_resolve_ip,
  async_ip_of, async_past_cache,
}

-- The resolver gives what that of the other library gives.
pub record IsResolver {S Op : Type 0} {Answer : Op → Type 0}
    (serve : (op : Op) → Exec S (Answer op)) (dns : AsyncResolver Op Answer) (lib : Libraries)
    : Type 0 where
  pub resolves_a : (name : Str) → Runs serve (dns.resolve_a name) (Exec.lift (lib.resolve_a name))
  pub resolves_srv :
      (name : Str) → Runs serve (dns.resolve_srv name) (Exec.lift (lib.resolve_srv name))

module _ {S : Type 0} where
  bind_lift :
      {A B : Type 0} (r : Result A) (g : A → Result B) (s : S)
      → Exec.◌>>=◌ (Exec.lift r) (λ a. Exec.lift (g a)) s ≡ Exec.lift (bind_result r g) s
  unfolding Exec.◌>>=◌
  bind_lift (ok a) g s = refl
  bind_lift (err e) g s = refl

-- What the handler of the missing record comes to.
abbrev without_record : Option ℤ → Str → Exc → Result Address
without_record none host e = err (if is_missing e then value_error else e)
without_record (some port) host e = if is_missing e then address host port else err e

module _ {S : Type 0} (r : Result Address) (s : S) where
  -- An address that is made, or not, in the handler.
  made :
      Exec.◌>>=◌
        (Exec.◌>>=◌ (Exec.lift r) (λ a. Exec.pure (ok a)))
        (λ (found : Result Address). Exec.lift found)
        s
      ≡ Exec.lift r s
  unfolding Exec.◌>>=◌
  made = cases r
    where
      cases :
          (x : Result Address)
          → next (next (x, s) (λ a t. (ok (ok a), t))) (λ (y : Result Address) t. (y, t)) ≡ (x, s)
      cases (ok a) = refl
      cases (err e) = refl

module _ {S : Type 0} (lib : Libraries) where
  search_after :
      (d : Option ℤ) (host : Str) (r : Result (Str × ℕ)) (s : S)
      → Exec.◌>>=◌
          (Exec.catch
            (Exec.◌>>=◌ (Exec.lift r) (λ p. Exec.pure (address p.0 (pos p.1))))
            (λ e. Exec.◌>>=◌ (Exec.lift (without_record d host e)) (λ a. Exec.pure (ok a))))
          (λ found. Exec.lift found)
          s
        ≡ Exec.lift (or_default lib d host r) s
  unfolding Exec.◌>>=◌ Exec.catch
  search_after d host (ok (target, port)) s = refl
  search_after none host (err e) s = elim (Bool-cases (is_missing e)) [
    | inl m ↦ rw m refl
    | inr m ↦ rw m refl
  ]
  search_after (some port) host (err e) s = elim (Bool-cases (is_missing e)) [
    | inl m ↦ rw m (made (address host port) s)
    | inr m ↦ rw m refl
  ]

module _ {S Op : Type 0} {Answer : Op → Type 0} {serve : (op : Op) → Exec S (Answer op)} where
  Runs-same :
      {A : Type 0} (t : Task Op Answer A) (m n : Exec S A)
      → Runs serve t m
      → ((s : S) → m s ≡ n s)
      → Runs serve t n
  Runs-same t m n h e = record { at = λ s. h.at s ∙ e s }

  pub Runs-bind_result :
      {A B : Type 0} (t : Task Op Answer A) (r : Result A) (f : A → Task Op Answer B)
      (g : A → Result B)
      → Runs serve t (Exec.lift r)
      → ((a : A) → Runs serve (f a) (Exec.lift (g a)))
      → Runs serve (t >>= f) (Exec.lift (bind_result r g))
  Runs-bind_result t r f g h k =
      Runs-same _ _ _ (Runs-bind t (Exec.lift r) f (λ a. Exec.lift (g a)) h k) (bind_lift r g)

  Runs-ok : {A : Type 0} (a : A) → Runs serve (pure a) (Exec.lift (ok a))
  unfolding ◌>>=◌
  Runs-ok a = Runs-lift (ok a)

module _ {S Op : Type 0} {Answer : Op → Type 0} {serve : (op : Op) → Exec S (Answer op)}
    {dns : AsyncResolver Op Answer} {lib : Libraries} (h : IsResolver serve dns lib) where
  pub Runs-resolve_a_record :
      (hostname : Str)
      → Runs serve (async_resolve_a_record dns hostname) (Exec.lift (resolve_a_record lib hostname))
  unfolding async_resolve_a_record resolve_a_record
  Runs-resolve_a_record hostname =
      Runs-bind_result _ _ _ _ (h.resolves_a hostname) (λ answer. Runs-ok (rstrip_dots answer))

  Runs-resolve_mc_srv :
      (hostname : Str)
      → Runs serve (async_resolve_mc_srv dns hostname) (Exec.lift (resolve_mc_srv lib hostname))
  unfolding async_resolve_mc_srv resolve_mc_srv async_resolve_srv_record resolve_srv_record
  Runs-resolve_mc_srv hostname =
      Runs-bind_result _ _ _ _ (h.resolves_srv (codes "_minecraft._tcp." ++ hostname))
        (λ answer. Runs-ok (rstrip_dots answer.0, answer.1))

  Runs-if_missing :
      (b : Bool) (r : Result Address) (e : Exc)
      → Runs serve (if b then lift r else raise e) (Exec.lift (if b then r else err e))
  unfolding ◌>>=◌
  Runs-if_missing true r e = Runs-lift r
  Runs-if_missing false r e = Runs-lift (err e)

  Runs-missing_record :
      (d : Option ℤ) (host : Str) (e : Exc)
      → Runs serve (missing_record dns lib d host e) (Exec.lift (without_record d host e))
  unfolding ◌>>=◌
  Runs-missing_record none host e = Runs-lift (err (if is_missing e then value_error else e))
  Runs-missing_record (some port) host e = Runs-if_missing (is_missing e) (address host port) e

  Runs-srv_lookup :
      (d : Option ℤ) (p : Str × Option ℕ)
      → Runs serve (async_srv_lookup dns lib d p) (Exec.lift (srv_lookup lib d p))
  Runs-srv_lookup d (host, some port) = Runs-lift (address host (pos port))
  Runs-srv_lookup d (host, none) =
      Runs-same _ _ _
        (Runs-bind _ _ _ _
          (Runs-catch _ _ _ _
            (Runs-bind _ _ _ _ (Runs-resolve_mc_srv host) (λ p. Runs-pure (address p.0 (pos p.1))))
            (λ e. Runs-bind _ _ _ _ (Runs-missing_record d host e) (λ a. Runs-pure (ok a))))
          (λ found. Runs-lift found))
        (search_after lib d host (resolve_mc_srv lib host))

  -- Run to its end, the asynchronous lookup gives what the synchronous one gives, for a resolver that
  -- gives the same answers.
  pub Runs-minecraft_srv_address_lookup :
      (default_port : Option ℤ) (string : Str)
      → Runs serve
          (async_minecraft_srv_address_lookup dns lib default_port string)
          (Exec.lift (minecraft_srv_address_lookup lib default_port string))
  unfolding async_minecraft_srv_address_lookup minecraft_srv_address_lookup
  Runs-minecraft_srv_address_lookup default_port string =
      Runs-bind_result _ _ _ _ (Runs-lift (valid_urlparse lib string))
        (Runs-srv_lookup default_port)

-- The same over the address that is asked, whose cache the operations read and set.
module _ {Op : Type 0} {Answer : Op → Type 0} (dns : AsyncResolver Op Answer) (lib : Libraries)
    {serve : (op : Op) → Exec (Cached lib.Ip) (Answer op)} (h : IsResolver serve dns lib)
    (cached_ip : Task Op Answer (Option lib.Ip)) (store : lib.Ip → Task Op Answer (Unit {0}))
    (loads : Runs serve cached_ip (λ self. (ok self.cached_ip, self)))
    (stores : (ip : lib.Ip)
      → Runs serve (store ip) (λ self. (ok tt, record self { cached_ip = some ip }))) where
  Runs-ip_of :
      (o : Option lib.Ip) (host : Str)
      → Runs serve (async_ip_of dns lib cached_ip store o host) (Exec.lift (ip_of lib o host))
  Runs-ip_of (some ip) host = Runs-ok ip
  Runs-ip_of none host =
      Runs-bind_result _ _ _ _ (Runs-resolve_a_record h host)
        (λ text. Runs-lift (ip_or_error lib (lib.ip_address text)))

  stored :
      (r : Result lib.Ip) (self : Cached lib.Ip)
      → Exec.◌>>=◌
          (Exec.lift r)
          (λ ip.
            Exec.◌>>=◌ (λ self. (ok tt, record self { cached_ip = some ip })) (λ _. Exec.pure ip))
          self
        ≡ store_ip lib r self
  unfolding Exec.◌>>=◌
  stored (ok ip) self = refl
  stored (err e) self = refl

  Runs-past_cache :
      (host : Str)
      → Runs serve
          (async_past_cache dns lib cached_ip store none host)
          (store_ip lib (lookup_ip lib host))
  unfolding lookup_ip
  Runs-past_cache host =
      Runs-same _ _ _
        (Runs-bind _ _ _ _ (Runs-ip_of _ host)
          (λ ip. Runs-bind _ _ _ _ (stores ip) (λ _. Runs-pure ip)))
        (stored _)

  through_cache :
      (a : Address) (o : Option lib.Ip)
      → run serve
          (async_past_cache dns lib cached_ip store o a.host)
          (record { address = a; cached_ip = o })
        ≡ resolve_ip lib (record { address = a; cached_ip = o })
  unfolding resolve_ip run ◌>>=◌
  through_cache a (some ip) = refl
  through_cache a none = (Runs-past_cache a.host).at (record { address = a; cached_ip = none })

  -- `async_resolve_ip` gives and caches what `resolve_ip` gives and caches, for a resolver that gives the
  -- same answers.
  pub run-async_resolve_ip :
      (self : Cached lib.Ip)
      → run serve (async_resolve_ip dns lib cached_ip store self.address.host) self
        ≡ resolve_ip lib self
  unfolding async_resolve_ip
  run-async_resolve_ip self =
      run-bind serve cached_ip _ self
      ∙ ap
          (λ p.
            next p (λ o. run serve (async_past_cache dns lib cached_ip store o self.address.host)))
          (loads.at self)
      ∙ through_cache self.address self.cached_ip
