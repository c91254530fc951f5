-- ===== src/Motd/Simplify/Markup.antt =====
-- mcstatus/motd/_simplifies.py: what the simplifiers propose to remove, and the plain text.
use mcstatus_rust.Prelude.{
  ℕ, zero, suc, ◌+◌, ◌≡◌, refl, ap, ◌∙◌, sym, Bool, true, false, ◌&&◌, ◌||◌, Option, none, some,
  List, [], ◌∷◌, ◌++◌, arith, drop, All, ◌==◌, Bool-cases, inl, inr, if◌then◌else◌, ==_iff,
}
use mathlib.Core.Bool.{false≢true}
use mathlib.Core.Path.{subst}
use mcstatus_rust.Motd.Components.{
  Component, formatting, is_color, is_formatting, is_text, same, reset,
}
use mcstatus_rust.Motd.Simplify.{
  Parsed, double_items_from, get_double_items, double_colors_from, get_double_colors,
  formatting_before_from, get_formatting_before_color, meaningless_from,
  get_meaningless_resets_and_colors, end_non_text_from, get_end_non_text, get_unused_elements,
  contains, without_from, prune, add_index,
}
use mcstatus_rust.Motd.Transform.{to_plain, handle_component, plain, join}

abbrev is_text_at : Parsed → ℕ → Bool
is_text_at [] j = false
is_text_at (c ∷ cs) zero = is_text c
is_text_at (c ∷ cs) (suc j) = is_text_at cs j

-- Index `j` of the message is no text.
abbrev pub IsMarkup : Parsed → ℕ → Type 0
IsMarkup parsed j = is_text_at parsed j ≡ false

is_text_at-drop :
    (parsed : Parsed) (i : ℕ) (item : Component) (rest : Parsed)
    → drop i parsed ≡ item ∷ rest
    → (is_text_at parsed i ≡ is_text item) × (drop (i + 1) parsed ≡ rest)
is_text_at-drop [] zero item rest h = cc
is_text_at-drop [] (suc i) item rest h = cc
is_text_at-drop (c ∷ cs) zero item rest h = (cc, cc)
is_text_at-drop (c ∷ cs) (suc i) item rest h =
    let (here, there) = is_text_at-drop cs i item rest h in
    let e : suc i + 1 ≡ suc (i + 1) = omega arith in (here, rw e there)

markup_not_text :
    (item : Component) → (is_formatting item || is_color item) ≡ true → is_text item ≡ false
unfolding is_formatting is_color is_text
markup_not_text item h = ground arith

color_not_text : (item : Component) → is_color item ≡ true → is_text item ≡ false
unfolding is_color is_text
color_not_text item h = ground arith

formatting_not_text : (item : Component) → is_formatting item ≡ true → is_text item ≡ false
unfolding is_formatting is_text
formatting_not_text item h = ground arith

reset_not_text : (item : Component) → same item (formatting reset) ≡ true → is_text item ≡ false
unfolding same is_text
reset_not_text item h = ground arith

module _ (parsed : Parsed) where
  abbrev Marks : List ℕ → Type 0
  Marks = All (IsMarkup parsed)

  Marks-append : (xs ys : List ℕ) → Marks xs → Marks ys → Marks (xs ++ ys)
  Marks-append [] ys h k = k
  Marks-append (x ∷ xs) ys (p, h) k = (p, Marks-append xs ys h k)

  -- What each loop adds to its result.
  Marks-if :
      (b : Bool) (i : ℕ) (xs : List ℕ)
      → (b ≡ true → IsMarkup parsed i)
      → Marks xs
      → Marks (if b then i ∷ xs else xs)
  Marks-if true i xs h k = (h refl, k)
  Marks-if false i xs h k = k

  Marks-pick : (b : Bool) (xs ys : List ℕ) → Marks xs → Marks ys → Marks (if b then xs else ys)
  Marks-pick true xs ys h k = h
  Marks-pick false xs ys h k = k

  abbrev MarksOption : Option ℕ → Type 0
  MarksOption none = Unit {0}
  MarksOption (some i) = IsMarkup parsed i

  Marks-add_index : (o : Option ℕ) (xs : List ℕ) → MarksOption o → Marks xs → Marks (add_index o xs)
  Marks-add_index none xs h k = k
  Marks-add_index (some i) xs h k = (h, k)

  module _ (i : ℕ) (item : Component) (rest : Parsed) (h : drop i parsed ≡ item ∷ rest) where
    mark_here : is_text item ≡ false → IsMarkup parsed i
    mark_here e = (is_text_at-drop parsed i item rest h).0 ∙ e

    tail_here : drop (i + 1) parsed ≡ rest
    tail_here = (is_text_at-drop parsed i item rest h).1

  double_items-Marks :
      (i : ℕ) (rest : Parsed) → drop i parsed ≡ rest → Marks (double_items_from i rest)
  unfolding double_items_from
  double_items-Marks i [] h = tt
  double_items-Marks i (item ∷ []) h = tt
  double_items-Marks i (item ∷ next ∷ rest) h =
      Marks-if ((is_formatting item || is_color item) && same item next) i _
        (λ e. mark_here i item (next ∷ rest) h (markup_not_text item (ground arith)))
        (double_items-Marks (i + 1) (next ∷ rest) (tail_here i item (next ∷ rest) h))

  double_colors-Marks :
      (i : ℕ) (prev : Option ℕ) (rest : Parsed)
      → drop i parsed ≡ rest
      → MarksOption prev
      → Marks (double_colors_from i prev rest)
  unfolding double_colors_from
  double_colors-Marks i prev [] h p = tt
  double_colors-Marks i prev (item ∷ rest) h p =
      let prev' : Option ℕ =
        (if is_text item then none else if is_color item then some i else prev) in
      let more : Marks (double_colors_from (i + 1) prev' rest) =
        double_colors-Marks (i + 1) prev' rest (tail_here i item rest h) (
          next_prev (is_text item) (is_color item)
            (λ e. mark_here i item rest h (color_not_text item e))) in
      Marks-pick (is_color item) _ _ (Marks-add_index prev _ p more) more
    where
      next_prev :
          (t c : Bool)
          → (c ≡ true → IsMarkup parsed i)
          → MarksOption (if t then none else if c then some i else prev)
      next_prev true c f = tt
      next_prev false true f = f refl
      next_prev false false f = p

  formatting_before-Marks :
      (i : ℕ) (collected : List ℕ) (rest : Parsed)
      → drop i parsed ≡ rest
      → Marks collected
      → Marks (formatting_before_from i collected rest)
  unfolding formatting_before_from
  formatting_before-Marks i collected [] h p = tt
  formatting_before-Marks i collected (item ∷ rest) h p =
      let with_item : Marks (if is_formatting item then i ∷ collected else collected) =
        Marks-if (is_formatting item) i collected
          (λ e. mark_here i item rest h (formatting_not_text item e)) p in
      let more =
        formatting_before-Marks (i + 1) _ rest (tail_here i item rest h) (
          Marks-pick _ [] (if is_formatting item then i ∷ collected else collected) tt with_item) in
      Marks-pick (is_color item) _ _ (Marks-append _ _ with_item more) more

  meaningless-Marks :
      (i : ℕ) (c f : Option Component) (rest : Parsed)
      → drop i parsed ≡ rest
      → Marks (meaningless_from i c f rest)
  unfolding meaningless_from
  meaningless-Marks i c f [] h = tt
  meaningless-Marks i c f (item ∷ rest) h =
      Marks-if _ i _
        (λ e.
          mark_here i item rest h
            (ground (arith, color_not_text item, formatting_not_text item, reset_not_text item)))
        (meaningless-Marks (i + 1) _ _ rest (tail_here i item rest h))

  end_non_text-Marks :
      (i : ℕ) (rest : Parsed) → drop i parsed ≡ rest → Marks (end_non_text_from i rest)
  unfolding end_non_text_from
  end_non_text-Marks i [] h = tt
  end_non_text-Marks i (item ∷ rest) h =
      Marks-if _ i _
        (λ e.
          mark_here i item rest h (ground (arith, color_not_text item, formatting_not_text item)))
        (end_non_text-Marks (i + 1) rest (tail_here i item rest h))

  -- All indices that the five simplifiers collect are those of colours and formattings.
  pub get_unused-Marks : All (IsMarkup parsed) (get_unused_elements parsed)
  unfolding get_unused_elements get_double_items get_double_colors get_formatting_before_color
      get_meaningless_resets_and_colors get_end_non_text
  get_unused-Marks = Marks-append _ _ (double_items-Marks 0 parsed refl) (
      Marks-append _ _ (double_colors-Marks 0 none parsed refl tt) (
        Marks-append _ _ (formatting_before-Marks 0 [] parsed refl tt) (
          Marks-append _ _ (meaningless-Marks 0 none none parsed refl)
            (end_non_text-Marks 0 parsed refl))))

contains-All : (P : ℕ → Type 0) (xs : List ℕ) (i : ℕ) → All P xs → contains xs i ≡ true → P i
unfolding contains
contains-All P [] i h e = absurd (false≢true e)
contains-All P (x ∷ xs) i (p, h) e = elim (Bool-cases (i == x)) [
  | inl here ↦ subst P (sym ((==_iff i x).0 here)) p
  | inr there ↦ contains-All P xs i h (rw there at e)
]

plain_markup : (item : Component) → is_text item ≡ false → join (handle_component plain item) ≡ []
unfolding is_text handle_component join
plain_markup item h = ground arith

without-plain :
    (parsed : Parsed) (unused : List ℕ) (i : ℕ) (rest : Parsed)
    → All (IsMarkup parsed) unused
    → drop i parsed ≡ rest
    → to_plain (without_from i unused rest) ≡ to_plain rest
unfolding without_from to_plain
without-plain parsed unused i [] h e = refl
without-plain parsed unused i (item ∷ rest) h e = elim (Bool-cases (contains unused i)) [
  | inl gone ↦
      rw
        (
          gone,
          plain_markup item (
              sym ((is_text_at-drop parsed i item rest e).0)
              ∙ contains-All (IsMarkup parsed) unused i h gone),
        )
        (without-plain parsed unused (i + 1) rest h (is_text_at-drop parsed i item rest e).1)
  | inr kept ↦ rw kept (
      ap (◌++◌ (join (handle_component plain item)))
        (without-plain parsed unused (i + 1) rest h (is_text_at-drop parsed i item rest e).1))
]

-- One round of `simplify` keeps the plain text.
pub prune-plain : (parsed : Parsed) → to_plain (prune parsed) ≡ to_plain parsed
unfolding prune
prune-plain parsed =
    without-plain parsed (get_unused_elements parsed) 0 parsed (get_unused-Marks parsed) refl
