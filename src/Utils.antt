-- ===== src/Utils.antt =====
-- mcstatus/_utils: `retry` and `or_none`.
pub mod Laws
pub mod Deprecation
use mcstatus_rust.Prelude.{ℕ, zero, suc, Bool, Option, none, some, List, [], ◌∷◌, if◌then◌else◌}
use mcstatus_rust.Prelude.Exec.{Exc, Result, ok, err, unbound_local_error, Exec, next}

-- `or_none(*args)`
unfoldable pub or_none {ℓ} : {A : Type ℓ} → List (Option A) → Option A
or_none [] = none
or_none (none ∷ rest) = or_none rest
or_none (some a ∷ rest) = some a

module _ {S A : Type 0} (caught : Exc → Bool) where
  -- What an attempt leaves: a result or an exception that is not caught ends the loop.
  abbrev pub after_try : Result A × S → (Exc → Exec S A) → Result A × S
  after_try (ok a, s) again = (ok a, s)
  after_try (err e, s) again = if caught e then again e s else (err e, s)

  -- The loop of `sync_wrapper`, with the last exception caught.
  unfoldable pub retry_loop : ℕ → Exec S A → Exc → Exec S A
  retry_loop zero func last_exc s = (err last_exc, s)
  retry_loop (suc k) func last_exc s = after_try (func s) (retry_loop k func)

  -- `retry`: with no try at all `last_exc` is unbound where it is raised.
  unfoldable pub retry : ℕ → Exec S A → Exec S A
  unfolding retry_loop
  retry tries func = retry_loop tries func unbound_local_error
