-- ===== src/Prelude/Exec.antt =====
-- Python's exceptions, and methods that change an object and may raise. What was written before a
-- raise stays written, so the state comes back beside the error too.
use mathlib.Core.Path.{◌≡◌, refl, ◌∙◌, ap}
use mathlib.Core.Bool.{Bool, true, false}
use mcstatus_rust.Prelude.Tests.{if◌then◌else◌}

-- The exception classes that the program raises or catches. `unicode_error` is Python's
-- `UnicodeError`, a subclass of `ValueError`.
pub data Exc : Type 0 where
  os_error value_error unicode_error key_error index_error type_error struct_error : Exc
  unbound_local_error dns_error nx_domain no_answer : Exc
  -- The `OSError` whose `errno` is `ENOTCONN`.
  not_connected : Exc
  -- The other subclasses of `OSError` that are told apart, and `dns.resolver.NoNameservers`.
  timeout_error connection_error gai_error no_nameservers : Exc
  assertion_error deprecation_warning : Exc
  -- No exception of Python: a loop of the model has used up its rounds.
  out_of_rounds : Exc

pub data Result {ℓ} (A : Type ℓ) : Type ℓ where
  ok : A → Result A
  err : Exc → Result A

abbrev pub Exec : Type 0 → Type 0 → Type 0
Exec S A = S → Result A × S

module _ {S A : Type 0} where
  pub pure : A → Exec S A
  pure a s = (ok a, s)

  pub raise : Exc → Exec S A
  raise e s = (err e, s)

  pub lift : Result A → Exec S A
  lift r s = (r, s)

module _ {S A B : Type 0} where
  abbrev pub next : Result A × S → (A → Exec S B) → Result B × S
  next (ok a, s) f = f a s
  next (err e, s) f = (err e, s)

  infixl 5 ◌>>=◌ ◌>>◌
  -- Opening this opens `pure`, `raise` and `lift` too.
  unfoldable pub ◌>>=◌ : Exec S A → (A → Exec S B) → Exec S B
  unfolding pure raise lift
  ◌>>=◌ m f s = next (m s) f

  abbrev pub ◌>>◌ : Exec S A → Exec S B → Exec S B
  m >> k = m >>= λ _. k

-- `try: m except e: h(e)`; the handler runs in the state that the raise left.
module _ {S A : Type 0} where
  abbrev pub caught : Result A × S → (Exc → Exec S A) → Result A × S
  caught (ok a, s) h = (ok a, s)
  caught (err e, s) h = h e s

  unfoldable pub catch : Exec S A → (Exc → Exec S A) → Exec S A
  catch m h s = caught (m s) h

pub lift_ok : {S A : Type 0} (r : Result A) (s : S) {a : A} → r ≡ ok a → lift r s ≡ (ok a, s)
unfolding lift
lift_ok r s h = ap (λ x. (x, s)) h

-- One step of a run that succeeds, or fails.
module _ {S A B : Type 0} where
  pub bind_ok :
      (m : Exec S A) (f : A → Exec S B) (s : S) {a : A} {t : S}
      → m s ≡ (ok a, t)
      → (m >>= f) s ≡ f a t
  unfolding ◌>>=◌
  bind_ok m f s h = ap (λ p. next p f) h

  pub bind_err :
      (m : Exec S A) (f : A → Exec S B) (s : S) {e : Exc} {t : S}
      → m s ≡ (err e, t)
      → (m >>= f) s ≡ (err e, t)
  unfolding ◌>>=◌
  bind_err m f s h = ap (λ p. next p f) h

-- A pure chain of fallible steps.
abbrev pub bind_result {ℓ κ} : {A : Type ℓ} {B : Type κ} → Result A → (A → Result B) → Result B
bind_result (ok a) f = f a
bind_result (err e) f = err e

-- Inversion of a successful bind.
pub bind_result-eq-ok {ℓ κ} :
    {A : Type ℓ} {B : Type κ} (m : Result A) (f : A → Result B) {b : B}
    → bind_result m f ≡ ok b
    → (a : A) × (m ≡ ok a) × (f a ≡ ok b)
bind_result-eq-ok (ok a) f h = (a, refl, h)
bind_result-eq-ok (err e) f h = cc

-- From a state with the invariant, `m` over `S` behaves as `m'` over `T`, where `u` says what of `S` can
-- be seen, and keeps the invariant.
pub record Simulates {S T A : Type 0} (inv : S → Type 0) (u : S → T) (m : Exec S A) (m' : Exec T A)
    : Type 0 where
  pub at : (s : S) → inv s → m' (u s) ≡ ((m s).0, u (m s).1)
  pub keeps : (s : S) → inv s → inv (m s).1

module _ {S T A : Type 0} {inv : S → Type 0} {u : S → T} where
  pub Simulates-pure : (a : A) → Simulates inv u (pure a) (pure a)
  unfolding pure
  Simulates-pure a = record { at = λ s h. refl; keeps = λ s h. h }

  pub Simulates-raise : (e : Exc) → Simulates inv u (raise {A = A} e) (raise e)
  unfolding raise
  Simulates-raise e = record { at = λ s h. refl; keeps = λ s h. h }

  pub Simulates-lift : (r : Result A) → Simulates inv u (lift r) (lift r)
  unfolding lift
  Simulates-lift r = record { at = λ s h. refl; keeps = λ s h. h }

  pub Simulates-if :
      (b : Bool) (m n : Exec S A) (m' n' : Exec T A)
      → Simulates inv u m m'
      → Simulates inv u n n'
      → Simulates inv u (if b then m else n) (if b then m' else n')
  Simulates-if true m n m' n' h k = h
  Simulates-if false m n m' n' h k = k

  Simulates-caught :
      (p : Result A × S) (f : Exc → Exec S A) (f' : Exc → Exec T A)
      → inv p.1
      → ((e : Exc) → Simulates inv u (f e) (f' e))
      → (caught (p.0, u p.1) f' ≡ ((caught p f).0, u (caught p f).1)) × inv (caught p f).1
  Simulates-caught (ok a, s) f f' k h = (refl, k)
  Simulates-caught (err e, s) f f' k h = ((h e).at s k, (h e).keeps s k)

  pub Simulates-catch :
      (m : Exec S A) (m' : Exec T A) (f : Exc → Exec S A) (f' : Exc → Exec T A)
      → Simulates inv u m m'
      → ((e : Exc) → Simulates inv u (f e) (f' e))
      → Simulates inv u (catch m f) (catch m' f')
  unfolding catch
  Simulates-catch m m' f f' hm hf = record {
    at = λ s h.
        ap (λ p. caught p f') (hm.at s h) ∙ (Simulates-caught (m s) f f' (hm.keeps s h) hf).0;
    keeps = λ s h. (Simulates-caught (m s) f f' (hm.keeps s h) hf).1;
  }

module _ {S T A B : Type 0} {inv : S → Type 0} {u : S → T} where
  Simulates-next :
      (p : Result A × S) (f : A → Exec S B) (f' : A → Exec T B)
      → inv p.1
      → ((a : A) → Simulates inv u (f a) (f' a))
      → (next (p.0, u p.1) f' ≡ ((next p f).0, u (next p f).1)) × inv (next p f).1
  Simulates-next (ok a, s) f f' k h = ((h a).at s k, (h a).keeps s k)
  Simulates-next (err e, s) f f' k h = (refl, k)

  pub Simulates-bind :
      (m : Exec S A) (m' : Exec T A) (f : A → Exec S B) (f' : A → Exec T B)
      → Simulates inv u m m'
      → ((a : A) → Simulates inv u (f a) (f' a))
      → Simulates inv u (m >>= f) (m' >>= f')
  unfolding ◌>>=◌
  Simulates-bind m m' f f' hm hf = record {
    at = λ s h. ap (λ p. next p f') (hm.at s h) ∙ (Simulates-next (m s) f f' (hm.keeps s h) hf).0;
    keeps = λ s h. (Simulates-next (m s) f f' (hm.keeps s h) hf).1;
  }

pub ruleset sim_rules =
    (Simulates-pure, Simulates-raise, Simulates-lift, Simulates-if, Simulates-catch, Simulates-bind)
