-- ===== src/Prelude/Context.antt =====
-- Python's context managers: `with`, whose exit comes after every outcome of the body.
use mathlib.Core.Path.{◌≡◌, refl}
use mcstatus_rust.Prelude.Exec.{Exec, ok, lift, ◌>>=◌}

module _ {S A : Type 0} where
  -- The outcome of the body stands, unless the exit raises.
  unfoldable pub ensure : Exec S A → Exec S (Unit {0}) → Exec S A
  ensure body exit s = (exit >>= λ _. lift (body s).0) (body s).1

  pub ensure-exits :
      (body : Exec S A) (exit : Exec S (Unit {0})) (s t : S)
      → exit (body s).1 ≡ (ok tt, t)
      → ensure body exit s ≡ ((body s).0, t)
  unfolding ensure ◌>>=◌
  ensure-exits body exit s t h = rw h refl
