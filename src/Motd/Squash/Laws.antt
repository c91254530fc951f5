-- ===== src/Motd/Squash/Laws.antt =====
-- mcstatus/motd/_simplifies.py: `squash_nearby_strings` with the fillers walked in ascending order.
use mcstatus_rust.Prelude.{
  ℕ, ◌+◌, ◌-◌, ◌≡◌, refl, ap, ◌∙◌, sym, true, false, ◌&&◌, [], ◌∷◌, ◌++◌, length, leb,
  if◌then◌else◌, arith, Bool-cases, inl, inr, append_assoc, append-nil, length-append,
}
use mcstatus_rust.Prelude.Exec.{ok}
use mcstatus_rust.Motd.Components.{Component, text, is_text}
use mcstatus_rust.Motd.Simplify.{Parsed}
use mcstatus_rust.Motd.Squash.{glue, glue_from, pop, pop_shifted, pop_all, squash_nearby_strings}
use mcstatus_rust.Motd.Transform.{to_plain, join, handle_component, plain}

-- Each run of texts made one text; `item` is the run so far.
abbrev pub merge : Component → Parsed → Parsed
merge item [] = item ∷ []
merge item (next ∷ rest) =
    let both = is_text item && is_text next in
    let more = merge (if both then glue item next else next) rest in
    if both then more else item ∷ more

abbrev pub merged : Parsed → Parsed
merged [] = []
merged (item ∷ rest) = merge item rest

pop-append :
    (front back : Parsed) (item : Component)
    → pop (length front) (front ++ item ∷ back) ≡ ok (front ++ back)
unfolding pop
pop-append [] back item = refl
pop-append (c ∷ front) back item = rw (pop-append front back item)

pub pop_shifted-append :
    (front back : Parsed) (item : Component) (i removed : ℕ)
    → i ≡ length front + removed
    → pop_shifted i removed (front ++ item ∷ back) ≡ ok (front ++ back)
unfolding pop_shifted
pop_shifted-append front back item i removed h =
    let order : leb removed i ≡ true = ground arith in
    let e : i - removed ≡ length front = omega arith in rw (order, e) (pop-append front back item)

after :
    (front back : Parsed) (item : Component) → front ++ item ∷ back ≡ (front ++ item ∷ []) ++ back
after front back item = sym (append_assoc front (item ∷ []) back)

pop_all-glue :
    (front : Parsed) (i removed : ℕ) (item : Component) (rest : Parsed)
    → i ≡ length front + removed
    → pop_all removed (glue_from i item rest).1 (front ++ (glue_from i item rest).0)
      ≡ ok (front ++ merge item rest)
unfolding pop_all glue_from
pop_all-glue front i removed item [] h = refl
pop_all-glue front i removed item (next ∷ rest) h =
    elim (Bool-cases (is_text item && is_text next)) [
      | inl both ↦ rw both (
          rw (pop_shifted-append front _ item i removed h)
            (pop_all-glue front (i + 1) (removed + 1) (glue item next) rest (omega arith)))
      | inr apart ↦ rw apart (
          ap (pop_all removed (glue_from (i + 1) next rest).1)
            (after front (glue_from (i + 1) next rest).0 item)
          ∙ pop_all-glue (front ++ item ∷ []) (i + 1) removed next rest
              (omega (arith, length-append front (item ∷ [])))
          ∙ ap ok (sym (after front (merge next rest) item)))
    ]

-- In ascending order the fillers that are popped are the texts that were glued to their successors.
pub squash-merged : (p : Parsed) → squash_nearby_strings (λ xs. xs) p ≡ ok (merged p)
unfolding squash_nearby_strings pop_all
squash-merged [] = refl
squash-merged (item ∷ rest) = pop_all-glue [] 0 0 item rest (omega arith)

-- No text stands directly before another.
abbrev pub NoTwoTexts : Parsed → Type 0
NoTwoTexts [] = Unit {0}
NoTwoTexts (item ∷ []) = Unit {0}
NoTwoTexts (item ∷ next ∷ rest) =
    ((is_text item && is_text next) ≡ false) × NoTwoTexts (next ∷ rest)

-- The components that are no texts, in their order.
abbrev pub markup : Parsed → Parsed
markup [] = []
markup (item ∷ rest) = let more = markup rest in if is_text item then more else item ∷ more

glue_text : (c d : Component) → (is_text c && is_text d) ≡ true → is_text (glue c d) ≡ true
unfolding is_text glue
glue_text (text a) (text b) h = refl
glue_text c d h = ground arith

glue_plain :
    (c d : Component) (rest : Parsed)
    → (is_text c && is_text d) ≡ true
    → to_plain (glue c d ∷ rest) ≡ to_plain (c ∷ d ∷ rest)
unfolding is_text glue to_plain
glue_plain (text a) (text b) rest h = simp (append-nil, append_assoc)
glue_plain c d rest h = ground arith

merge_shape :
    (item : Component) (rest : Parsed)
    → (h : Component) × (t : Parsed) × (merge item rest ≡ h ∷ t)
      × (is_text h ≡ is_text item)
      × NoTwoTexts (h ∷ t)
merge_shape item [] = (item, [], refl, refl, tt)
merge_shape item (next ∷ rest) = elim (Bool-cases (is_text item && is_text next)) [
  | inl both ↦
      let (h, t, e, same, shape) = merge_shape (glue item next) rest in
      (h, t, rw both e, same ∙ glue_text item next both ∙ ground arith, shape)
  | inr apart ↦
      let (h, t, e, same, shape) = merge_shape next rest in
      (item, h ∷ t, rw (apart, e), refl, (rw same apart, shape))
]

merge-plain :
    (item : Component) (rest : Parsed) → to_plain (merge item rest) ≡ to_plain (item ∷ rest)
unfolding to_plain
merge-plain item [] = refl
merge-plain item (next ∷ rest) = elim (Bool-cases (is_text item && is_text next)) [
  | inl both ↦ rw both (merge-plain (glue item next) rest ∙ glue_plain item next rest both)
  | inr apart ↦ rw apart (ap (◌++◌ (join (handle_component plain item))) (merge-plain next rest))
]

merge-markup : (item : Component) (rest : Parsed) → markup (merge item rest) ≡ markup (item ∷ rest)
merge-markup item [] = refl
merge-markup item (next ∷ rest) = elim (Bool-cases (is_text item && is_text next)) [
  | inl both ↦
      rw both (merge-markup (glue item next) rest ∙ ground (arith, glue_text item next both))
  | inr apart ↦ rw apart (ground (arith, merge-markup next rest))
]

merged_shape :
    (p : Parsed)
    → NoTwoTexts (merged p) × (to_plain (merged p) ≡ to_plain p) × (markup (merged p) ≡ markup p)
merged_shape [] = (tt, refl, refl)
merged_shape (item ∷ rest) =
    let (h, t, e, same, shape) = merge_shape item rest in
    (rw e shape, merge-plain item rest, merge-markup item rest)

-- Where the fillers are walked in ascending order, the result has no text directly before another,
-- the same plain text, and the same colours and formattings in the same order.
pub squash_ascending :
    (p : Parsed)
    → (q : Parsed) × (squash_nearby_strings (λ xs. xs) p ≡ ok q)
      × NoTwoTexts q
      × (to_plain q ≡ to_plain p)
      × (markup q ≡ markup p)
squash_ascending p =
    let (shape, plain_eq, markup_eq) = merged_shape p in
    (merged p, squash-merged p, shape, plain_eq, markup_eq)
