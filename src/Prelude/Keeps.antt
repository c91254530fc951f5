-- ===== src/Prelude/Keeps.antt =====
-- Methods that keep a predicate on their state, however they end.
use mathlib.Core.Bool.{Bool, true, false}
use mcstatus_rust.Prelude.Tests.{if◌then◌else◌}
use mcstatus_rust.Prelude.Exec.{
  Exc, Exec, Result, ok, err, pure, raise, lift, catch, caught, next, ◌>>=◌,
}

pub record Keeps {S A : Type 0} (inv : S → Type 0) (m : Exec S A) : Type 0 where
  pub keeps : (s : S) → inv s → inv (m s).1

module _ {S A : Type 0} {inv : S → Type 0} where
  pub Keeps-pure : (a : A) → Keeps inv (pure a)
  unfolding ◌>>=◌
  Keeps-pure a = record { keeps = λ s h. h }

  pub Keeps-raise : (e : Exc) → Keeps inv (raise {A = A} e)
  unfolding ◌>>=◌
  Keeps-raise e = record { keeps = λ s h. h }

  pub Keeps-lift : (r : Result A) → Keeps inv (lift r)
  unfolding ◌>>=◌
  Keeps-lift r = record { keeps = λ s h. h }

  pub Keeps-if :
      (b : Bool) (m n : Exec S A) → Keeps inv m → Keeps inv n → Keeps inv (if b then m else n)
  Keeps-if true m n h k = h
  Keeps-if false m n h k = k

  Keeps-caught :
      (p : Result A × S) (f : Exc → Exec S A)
      → inv p.1
      → ((e : Exc) → Keeps inv (f e))
      → inv (caught p f).1
  Keeps-caught (ok a, s) f h k = h
  Keeps-caught (err e, s) f h k = (k e).keeps s h

  pub Keeps-catch :
      (m : Exec S A) (f : Exc → Exec S A)
      → Keeps inv m
      → ((e : Exc) → Keeps inv (f e))
      → Keeps inv (catch m f)
  unfolding catch
  Keeps-catch m f h k = record { keeps = λ s i. Keeps-caught (m s) f (h.keeps s i) k }

module _ {S A B : Type 0} {inv : S → Type 0} where
  Keeps-next :
      (p : Result A × S) (f : A → Exec S B)
      → inv p.1
      → ((a : A) → Keeps inv (f a))
      → inv (next p f).1
  Keeps-next (ok a, s) f h k = (k a).keeps s h
  Keeps-next (err e, s) f h k = h

  pub Keeps-bind :
      (m : Exec S A) (f : A → Exec S B)
      → Keeps inv m
      → ((a : A) → Keeps inv (f a))
      → Keeps inv (m >>= f)
  unfolding ◌>>=◌
  Keeps-bind m f h k = record { keeps = λ s i. Keeps-next (m s) f (h.keeps s i) k }

pub ruleset keep_rules = (Keeps-pure, Keeps-raise, Keeps-lift, Keeps-if, Keeps-catch, Keeps-bind)
