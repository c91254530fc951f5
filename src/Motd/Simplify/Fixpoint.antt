-- ===== src/Motd/Simplify/Fixpoint.antt =====
-- mcstatus/motd/_motd.py: the loop of `simplify`, its end and its result.
use mcstatus_rust.Prelude.{
  ℕ, zero, suc, ◌+◌, ◌≤◌, ◌<◌, ◌≡◌, refl, ap, ◌∙◌, sym, true, false, some, List, [], ◌∷◌, arith,
  length, Bool-cases, inl, inr, ◌⊎◌, ◌==◌, =s=_refl,
}
use mathlib.Core.Bool.{false≢true}
use mcstatus_rust.Motd.Components.{
  Component, formatting, color, web, translation, text, same, formatting_value, color_value,
}
use mcstatus_rust.Motd.Simplify.{
  Parsed, without_from, get_unused_elements, prune, same_list, prune_loop, simplify_loop,
}
use mcstatus_rust.Motd.Simplify.Markup.{prune-plain}
use mcstatus_rust.Motd.Transform.{to_plain}

-- What is left is no longer than before, and nothing was removed if it is as long.
length-without :
    (i : ℕ) (unused : List ℕ) (rest : Parsed)
    → (length (without_from i unused rest) < length rest) ⊎ (without_from i unused rest ≡ rest)
unfolding without_from
length-without i unused [] = inr refl
length-without i unused (item ∷ rest) = ground (arith, length-without (i + 1) unused rest)

length-prune : (p : Parsed) → (length (prune p) < length p) ⊎ (prune p ≡ p)
unfolding prune
length-prune p = length-without 0 (get_unused_elements p) p

nat_eq_refl : (n : ℕ) → (n == n) ≡ true
nat_eq_refl n = ground arith

same_refl : (c : Component) → same c c ≡ true
unfolding same
same_refl (formatting f) = nat_eq_refl (formatting_value f)
same_refl (color c) = nat_eq_refl (color_value c)
same_refl (web w) = ground (arith, =s=_refl w.hex)
same_refl (translation t) = =s=_refl t
same_refl (text s) = =s=_refl s

same_list_refl : (p : Parsed) → same_list p p ≡ true
unfolding same_list
same_list_refl [] = refl
same_list_refl (c ∷ p) = rw (same_refl c) (same_list_refl p)

length-same_list : (p q : Parsed) → same_list p q ≡ true → length p ≡ length q
unfolding same_list
length-same_list [] [] h = refl
length-same_list [] (c ∷ q) h = absurd (false≢true h)
length-same_list (c ∷ p) [] h = absurd (false≢true h)
length-same_list (c ∷ p) (d ∷ q) h = ground (arith, length-same_list p q)

same-prune : (p : Parsed) → same_list (prune p) p ≡ true → prune p ≡ p
same-prune p h = elim (length-prune p) [
  | inl shorter ↦ absurd (omega (arith, length-same_list (prune p) p h))
  | inr e ↦ e
]

different-prune : (p : Parsed) → same_list (prune p) p ≡ false → length (prune p) < length p
different-prune p h = elim (length-prune p) [
  | inl shorter ↦ shorter
  | inr e ↦ absurd (false≢true (sym h ∙ ap (λ q. same_list q p) e ∙ same_list_refl p))
]

prune_loop_fixpoint :
    (k : ℕ) (p : Parsed)
    → length p < k
    → (q : Parsed) × (prune_loop k p ≡ some q)
      × (prune q ≡ q)
      × (to_plain q ≡ to_plain p)
      × (length q ≤ length p)
unfolding prune_loop
prune_loop_fixpoint zero p h = absurd (omega arith)
prune_loop_fixpoint (suc k) p h = elim (Bool-cases (same_list (prune p) p)) [
  | inl done ↦
      let e : prune p ≡ p = same-prune p done in
      (prune p, rw done, ap prune e, prune-plain p, omega (arith, ap (λ q. length q) e))
  | inr more ↦
      let shorter : length (prune p) < length p = different-prune p more in
      let (q, run, fix, same_text, len) = prune_loop_fixpoint k (prune p) (omega arith) in
      (q, rw more run, fix, same_text ∙ prune-plain p, omega arith)
]

-- On every message the loop of `simplify` ends, with a message of the same plain text that is not
-- longer and from which a further round would remove nothing.
pub simplify_total :
    (p : Parsed)
    → (q : Parsed) × (simplify_loop p ≡ some q)
      × (prune q ≡ q)
      × (to_plain q ≡ to_plain p)
      × (length q ≤ length p)
unfolding simplify_loop
simplify_total p = prune_loop_fixpoint (suc (length p)) p (omega arith)
