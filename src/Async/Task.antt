-- ===== src/Async/Task.antt =====
-- Python's coroutines: a task runs up to its next `await` of an operation of the outside, and goes on
-- with what that operation gives or raises. What serves the operations is a parameter.
pub mod Context
use mcstatus_rust.Prelude.{◌≡◌, refl, ap, ◌∙◌, Bool, true, false, if◌then◌else◌}
use mcstatus_rust.Prelude.Exec
use mcstatus_rust.Prelude.Exec.{Exc, Result, ok, err, Exec, next, caught}

pub data Task (Op : Type 0) (Answer : Op → Type 0) (A : Type 0) : Type 0 where
  ret : Result A → Task Op Answer A
  await : (op : Op) → (Result (Answer op) → Task Op Answer A) → Task Op Answer A

module _ {Op : Type 0} {Answer : Op → Type 0} {A : Type 0} where
  pub pure : A → Task Op Answer A
  pure a = ret (ok a)

  pub raise : Exc → Task Op Answer A
  raise e = ret (err e)

  pub lift : Result A → Task Op Answer A
  lift r = ret r

-- `await` of one operation, and no more.
module _ {Op : Type 0} {Answer : Op → Type 0} where
  unfoldable pub perform : (op : Op) → Task Op Answer (Answer op)
  perform op = await op (λ r. ret r)

module _ {Op : Type 0} {Answer : Op → Type 0} {A B : Type 0} where
  abbrev pub goes_on : Result A → (A → Task Op Answer B) → Task Op Answer B
  goes_on (ok a) f = f a
  goes_on (err e) f = ret (err e)

  infixl 5 ◌>>=◌ ◌>>◌
  -- Opening this opens `pure`, `raise` and `lift` too.
  unfoldable pub ◌>>=◌ : Task Op Answer A → (A → Task Op Answer B) → Task Op Answer B
  unfolding pure raise lift
  ret r >>= f = goes_on r f
  await op k >>= f = await op (λ r. k r >>= f)

  abbrev pub ◌>>◌ : Task Op Answer A → Task Op Answer B → Task Op Answer B
  m >> k = m >>= λ _. k

-- `try: await m except e: h(e)`
module _ {Op : Type 0} {Answer : Op → Type 0} {A : Type 0} where
  abbrev pub rescued : Result A → (Exc → Task Op Answer A) → Task Op Answer A
  rescued (ok a) h = ret (ok a)
  rescued (err e) h = h e

  unfoldable pub catch : Task Op Answer A → (Exc → Task Op Answer A) → Task Op Answer A
  catch (ret r) h = rescued r h
  catch (await op k) h = await op (λ r. catch (k r) h)

-- A run to the end, each operation served in the state that the last one left.
module _ {S Op : Type 0} {Answer : Op → Type 0} (serve : (op : Op) → Exec S (Answer op)) where
  unfoldable pub run : {A : Type 0} → Task Op Answer A → Exec S A
  run (ret r) s = (r, s)
  run (await op k) s = run (k (serve op s).0) (serve op s).1

  -- Run to its end, the task `t` does what `m` does.
  pub record Runs {A : Type 0} (t : Task Op Answer A) (m : Exec S A) : Type 0 where
    pub at : (s : S) → run t s ≡ m s

module _ {S Op : Type 0} {Answer : Op → Type 0} (serve : (op : Op) → Exec S (Answer op)) where
  module _ {A : Type 0} where
    run-rescued :
        (r : Result A) (h : Exc → Task Op Answer A) (s : S)
        → run serve (rescued r h) s ≡ caught (r, s) (λ e. run serve (h e))
    unfolding run
    run-rescued (ok a) h s = refl
    run-rescued (err e) h s = refl

    pub run-catch :
        (t : Task Op Answer A) (h : Exc → Task Op Answer A) (s : S)
        → run serve (catch t h) s ≡ caught (run serve t s) (λ e. run serve (h e))
    unfolding run catch
    run-catch (ret r) h s = run-rescued r h s
    run-catch (await op k) h s = run-catch (k (serve op s).0) h (serve op s).1

  module _ {A B : Type 0} where
    run-goes_on :
        (r : Result A) (f : A → Task Op Answer B) (s : S)
        → run serve (goes_on r f) s ≡ next (r, s) (λ a. run serve (f a))
    unfolding run
    run-goes_on (ok a) f s = refl
    run-goes_on (err e) f s = refl

    pub run-bind :
        (t : Task Op Answer A) (f : A → Task Op Answer B) (s : S)
        → run serve (t >>= f) s ≡ next (run serve t s) (λ a. run serve (f a))
    unfolding run ◌>>=◌
    run-bind (ret r) f s = run-goes_on r f s
    run-bind (await op k) f s = run-bind (k (serve op s).0) f (serve op s).1

module _ {S Op : Type 0} {Answer : Op → Type 0} {serve : (op : Op) → Exec S (Answer op)} where
  pub Runs-perform : (op : Op) → Runs serve (perform op) (serve op)
  unfolding run perform
  Runs-perform op = record { at = λ s. refl }

  module _ {A : Type 0} where
    pub Runs-pure : (a : A) → Runs serve (pure a) (Exec.pure a)
    unfolding run pure Exec.◌>>=◌
    Runs-pure a = record { at = λ s. refl }

    pub Runs-raise : (e : Exc) → Runs serve (raise {A = A} e) (Exec.raise e)
    unfolding run raise Exec.◌>>=◌
    Runs-raise e = record { at = λ s. refl }

    pub Runs-lift : (r : Result A) → Runs serve (lift r) (Exec.lift r)
    unfolding run lift Exec.◌>>=◌
    Runs-lift r = record { at = λ s. refl }

    pub Runs-if :
        (b : Bool) (t u : Task Op Answer A) (m n : Exec S A)
        → Runs serve t m
        → Runs serve u n
        → Runs serve (if b then t else u) (if b then m else n)
    Runs-if true t u m n h k = h
    Runs-if false t u m n h k = k

    caught-at :
        (p : Result A × S) (h : Exc → Task Op Answer A) (g : Exc → Exec S A)
        → ((e : Exc) → Runs serve (h e) (g e))
        → caught p (λ e. run serve (h e)) ≡ caught p g
    caught-at (ok a, s) h g e = refl
    caught-at (err x, s) h g e = (e x).at s

    pub Runs-catch :
        (t : Task Op Answer A) (m : Exec S A) (h : Exc → Task Op Answer A) (g : Exc → Exec S A)
        → Runs serve t m
        → ((e : Exc) → Runs serve (h e) (g e))
        → Runs serve (catch t h) (Exec.catch m g)
    unfolding Exec.catch
    Runs-catch t m h g a b = record {
      at = λ s.
          run-catch serve t h s
          ∙ ap (λ p. caught p (λ e. run serve (h e))) (a.at s)
          ∙ caught-at (m s) h g b;
    }

module _ {S Op : Type 0} {Answer : Op → Type 0} {serve : (op : Op) → Exec S (Answer op)}
    {A B : Type 0} where
  next-at :
      (p : Result A × S) (f : A → Task Op Answer B) (g : A → Exec S B)
      → ((a : A) → Runs serve (f a) (g a))
      → next p (λ a. run serve (f a)) ≡ next p g
  next-at (ok a, s) f g h = (h a).at s
  next-at (err e, s) f g h = refl

  pub Runs-bind :
      (t : Task Op Answer A) (m : Exec S A) (f : A → Task Op Answer B) (g : A → Exec S B)
      → Runs serve t m
      → ((a : A) → Runs serve (f a) (g a))
      → Runs serve (t >>= f) (Exec.◌>>=◌ m g)
  unfolding Exec.◌>>=◌
  Runs-bind t m f g a b = record {
    at = λ s.
        run-bind serve t f s
        ∙ ap (λ p. next p (λ x. run serve (f x))) (a.at s)
        ∙ next-at (m s) f g b;
  }

pub ruleset run_rules =
    (Runs-pure, Runs-raise, Runs-lift, Runs-if, Runs-catch, Runs-bind, Runs-perform)
