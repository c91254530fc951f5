-- ===== src/Async/Task/Context.antt =====
-- Python's asynchronous context managers, and an attempt that is tried again.
use mcstatus_rust.Prelude.{ℕ, zero, suc, ◌≡◌, refl, ap, ◌∙◌, Bool, true, false, if◌then◌else◌}
use mcstatus_rust.Prelude.Exec
use mcstatus_rust.Prelude.Exec.{Exc, Result, ok, err, Exec, unbound_local_error, next}
use mcstatus_rust.Prelude.Context
use mcstatus_rust.Async.Task.{Task, ret, await, lift, ◌>>=◌, run, Runs, Runs-bind, Runs-lift}
use mcstatus_rust.Utils
use mcstatus_rust.Utils.{retry_loop, retry}

-- `async with`: the exit comes after every outcome of the body, which stands unless the exit raises.
module _ {Op : Type 0} {Answer : Op → Type 0} {A : Type 0} where
  unfoldable pub ensure : Task Op Answer A → Task Op Answer (Unit {0}) → Task Op Answer A
  ensure (ret r) exit = exit >>= λ _. lift r
  ensure (await op k) exit = await op (λ r. ensure (k r) exit)

-- `async_wrapper` of mcstatus/_utils/retry.py
module _ {Op : Type 0} {Answer : Op → Type 0} {A : Type 0} (caught : Exc → Bool) where
  -- What an attempt leaves, once it has ended.
  unfoldable pub after_try : Task Op Answer A → (Exc → Task Op Answer A) → Task Op Answer A
  after_try (ret (ok a)) again = ret (ok a)
  after_try (ret (err e)) again = if caught e then again e else ret (err e)
  after_try (await op k) again = await op (λ r. after_try (k r) again)

  unfoldable pub async_retry_loop : ℕ → Task Op Answer A → Exc → Task Op Answer A
  unfolding after_try
  async_retry_loop zero func last_exc = ret (err last_exc)
  async_retry_loop (suc k) func last_exc = after_try func (async_retry_loop k func)

  unfoldable pub async_retry : ℕ → Task Op Answer A → Task Op Answer A
  unfolding async_retry_loop
  async_retry tries func = async_retry_loop tries func unbound_local_error

module _ {S Op : Type 0} {Answer : Op → Type 0} {serve : (op : Op) → Exec S (Answer op)}
    {A : Type 0} where
  run-ensure :
      (t : Task Op Answer A) (u : Task Op Answer (Unit {0})) (n : Exec S (Unit {0})) (s : S)
      → Runs serve u n
      → run serve (ensure t u) s ≡ Exec.◌>>=◌ n (λ _. Exec.lift (run serve t s).0) (run serve t s).1
  unfolding run ensure
  run-ensure (ret r) u n s h = (Runs-bind u n _ _ h (λ _. Runs-lift r)).at s
  run-ensure (await op k) u n s h = run-ensure (k (serve op s).0) u n (serve op s).1 h

  pub Runs-ensure :
      (t : Task Op Answer A) (m : Exec S A) (u : Task Op Answer (Unit {0})) (n : Exec S (Unit {0}))
      → Runs serve t m
      → Runs serve u n
      → Runs serve (ensure t u) (Context.ensure m n)
  unfolding Context.ensure
  Runs-ensure t m u n h k = record {
    at = λ s. run-ensure t u n s k ∙ ap (λ p. Exec.◌>>=◌ n (λ _. Exec.lift p.0) p.1) (h.at s);
  }

  module _ (caught : Exc → Bool) where
    again_at :
        (e : Exc) (s : S) (again : Exc → Task Op Answer A) (g : Exc → Exec S A)
        → ((x : Exc) → Runs serve (again x) (g x))
        → run serve (if caught e then again e else ret (err e)) s
          ≡ (if caught e then g e s else (err e, s))
    unfolding run
    again_at e s again g h =
        elim (caught e)
          as (λ b.
            run serve (if b then again e else ret (err e)) s ≡ (if b then g e s else (err e, s))) [
              | true ↦ (h e).at s
              | false ↦ refl
            ]

    run-after_try :
        (t : Task Op Answer A) (again : Exc → Task Op Answer A) (g : Exc → Exec S A) (s : S)
        → ((x : Exc) → Runs serve (again x) (g x))
        → run serve (after_try caught t again) s ≡ Utils.after_try caught (run serve t s) g
    unfolding run after_try
    run-after_try (ret (ok a)) again g s h = refl
    run-after_try (ret (err e)) again g s h = again_at e s again g h
    run-after_try (await op k) again g s h =
        run-after_try (k (serve op s).0) again g (serve op s).1 h

    Runs-retry_loop :
        (k : ℕ) (t : Task Op Answer A) (m : Exec S A) (e : Exc)
        → Runs serve t m
        → Runs serve (async_retry_loop caught k t e) (retry_loop caught k m e)
    unfolding run async_retry_loop retry_loop
    Runs-retry_loop zero t m e h = record { at = λ s. refl }
    Runs-retry_loop (suc k) t m e h = record {
      at = λ s.
          run-after_try t (async_retry_loop caught k t) (retry_loop caught k m) s
            (λ x. Runs-retry_loop k t m x h)
          ∙ ap (λ p. Utils.after_try caught p (retry_loop caught k m)) (h.at s);
    }

    pub Runs-retry :
        (k : ℕ) (t : Task Op Answer A) (m : Exec S A)
        → Runs serve t m
        → Runs serve (async_retry caught k t) (retry caught k m)
    unfolding async_retry retry
    Runs-retry k t m h = Runs-retry_loop k t m unbound_local_error h
