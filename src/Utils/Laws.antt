-- ===== src/Utils/Laws.antt =====
-- mcstatus/_utils: what `retry` and `or_none` return and raise.
use mcstatus_rust.Prelude.{
  ℕ, zero, suc, ◌+◌, ◌≡◌, refl, ap, ◌∙◌, sym, Bool, true, false, Option, none, some, List, [], ◌∷◌,
  arith, All, ◌++◌,
}
use mcstatus_rust.Prelude.Exec.{Exc, Result, ok, err, unbound_local_error, Exec}
use mcstatus_rust.Utils.{retry, retry_loop, after_try, or_none}

module _ {S A : Type 0} (caught : Exc → Bool) (func : Exec S A) where
  -- The state after `n` attempts.
  abbrev pub state_after : ℕ → S → S
  state_after zero s = s
  state_after (suc n) s = state_after n (func s).1

  -- The first `n` attempts fail, with exceptions that are caught.
  abbrev pub Fails : ℕ → S → Type 0
  Fails zero s = Unit {0}
  Fails (suc n) s = ((e : Exc) × ((func s).0 ≡ err e) × (caught e ≡ true)) × Fails n (func s).1

  again_after :
      (p : Result A × S) (again : Exc → Exec S A) (e : Exc)
      → p.0 ≡ err e
      → caught e ≡ true
      → after_try caught p again ≡ again e p.1
  again_after (ok a, s) again e h c = cc
  again_after (err e', s) again e h c = let same : e' ≡ e = cc in rw (same, c)

  -- What ends the loop, a result or an exception that is not caught, is what `func` gave.
  abbrev pub Ends : Result A → Type 0
  Ends (ok a) = Unit {0}
  Ends (err e) = caught e ≡ false

  Ends-after : (p : Result A × S) (again : Exc → Exec S A) → Ends p.0 → after_try caught p again ≡ p
  Ends-after (ok a, s) again h = refl
  Ends-after (err e, s) again h = rw h

  loop-Ends :
      (n m : ℕ) (last : Exc) (s : S)
      → Fails n s
      → Ends (func (state_after n s)).0
      → retry_loop caught (n + suc m) func last s ≡ func (state_after n s)
  loop-Ends zero m last s f h =
      let e : 0 + suc m ≡ suc m = omega arith in
      rw e (unfold retry_loop in Ends-after (func s) (retry_loop caught m func) h)
  loop-Ends (suc n) m last s ((e', he, c), f) h =
      let e : suc n + suc m ≡ suc (n + suc m) = omega arith in
      rw e (
        opened (again_after (func s) (retry_loop caught (n + suc m) func) e' he c)
        ∙ loop-Ends n m e' (func s).1 f h)
    where
      opened :
          {x : Result A × S}
          → after_try caught (func s) (retry_loop caught (n + suc m) func) ≡ x
          → retry_loop caught (suc (n + suc m)) func last s ≡ x
      opened h = unfold retry_loop in h

  rebuilt : (p : Result A × S) (e : Exc) → p.0 ≡ err e → (err e, p.1) ≡ p
  rebuilt (r, s) e h = ap (λ x. (x, s)) (sym h)

  loop_exhausted :
      (n : ℕ) (last : Exc) (s : S)
      → Fails (suc n) s
      → retry_loop caught (suc n) func last s ≡ func (state_after n s)
  loop_exhausted zero last s ((e', he, c), f) =
      unfold retry_loop in
      again_after (func s) (retry_loop caught 0 func) e' he c ∙ rebuilt (func s) e' he
  loop_exhausted (suc n) last s ((e', he, c), f) =
      opened (again_after (func s) (retry_loop caught (suc n) func) e' he c)
      ∙ loop_exhausted n e' (func s).1 f
    where
      opened :
          {x : Result A × S}
          → after_try caught (func s) (retry_loop caught (suc n) func) ≡ x
          → retry_loop caught (suc (suc n)) func last s ≡ x
      opened h = unfold retry_loop in h

  -- After `n` caught failures the next attempt is the answer, if it succeeds or its exception is not
  -- caught; later tries are not made.
  pub retry_first_end :
      (n m : ℕ) (s : S)
      → Fails n s
      → Ends (func (state_after n s)).0
      → retry caught (n + suc m) func s ≡ func (state_after n s)
  unfolding retry
  retry_first_end n m s f h = loop-Ends n m unbound_local_error s f h

  -- If every one of `n` + 1 tries fails with a caught exception, the answer is the last attempt's: its
  -- exception, and the state that it left.
  pub retry_exhausted :
      (n : ℕ) (s : S) → Fails (suc n) s → retry caught (suc n) func s ≡ func (state_after n s)
  unfolding retry
  retry_exhausted n s f = loop_exhausted n unbound_local_error s f

-- `or_none` gives the first argument that is there: the ones before it are all `None`.
pub or_none_first {ℓ} :
    {A : Type ℓ} (before after : List (Option A)) (a : A)
    → All (λ o. o ≡ none) before
    → or_none (before ++ some a ∷ after) ≡ some a
unfolding or_none
or_none_first [] after a h = refl
or_none_first (none ∷ before) after a (e, h) = or_none_first before after a h
or_none_first (some b ∷ before) after a (e, h) = cc
