-- ===== src/Utils/Deprecation/Order.antt =====
-- mcstatus/_utils/deprecation.py: the order of versions, as Python compares tuples.
use mcstatus_rust.Prelude.{
  ◌≤◌, ◌≡◌, refl, ap, ◌⊎◌, inl, inr, Bool, true, false, not, ◌&&◌, ◌||◌, Bool-cases, arith, suc,
  ◌+◌,
}
use mcstatus_rust.Prelude.Int.{ℤ, pos, negsuc, pos_part, neg_part, ltb_ℤ}
use mcstatus_rust.Utils.Deprecation.Warn.{Version, not_before}

infix 50 ◌<ℤ◌
abbrev pub ◌<ℤ◌ : ℤ → ℤ → Type 0
a <ℤ b = suc (pos_part a + neg_part b) ≤ pos_part b + neg_part a

-- `v` comes before `w`: the first number in which they differ is smaller.
abbrev pub Before : Version → Version → Type 0
Before (a, b, c) (x, y, z) = (a <ℤ x) ⊎ ((a ≡ x) × ((b <ℤ y) ⊎ ((b ≡ y) × (c <ℤ z))))

-- The three cases of a comparison, each with what the tests give.
abbrev Compared : ℤ → ℤ → Type 0
Compared a b =
    ((a <ℤ b) × (ltb_ℤ a b ≡ true) × (ltb_ℤ b a ≡ false))
    ⊎ (((a ≡ b) × (ltb_ℤ a b ≡ false) × (ltb_ℤ b a ≡ false))
        ⊎ ((b <ℤ a) × (ltb_ℤ a b ≡ false) × (ltb_ℤ b a ≡ true)))

equal_ℤ : (a b : ℤ) → ltb_ℤ a b ≡ false → ltb_ℤ b a ≡ false → a ≡ b
equal_ℤ (pos n) (pos m) h k = ap pos (ground arith)
equal_ℤ (pos n) (negsuc m) h k = absurd (ground arith)
equal_ℤ (negsuc n) (pos m) h k = absurd (ground arith)
equal_ℤ (negsuc n) (negsuc m) h k = ap negsuc (ground arith)

compared : (a b : ℤ) → Compared a b
compared a b = elim (Bool-cases (ltb_ℤ a b)) [
  | inl l ↦ inl (ground arith, l, ground arith)
  | inr l ↦ elim (Bool-cases (ltb_ℤ b a)) [
    | inl m ↦ inr (inr (ground arith, l, m))
    | inr m ↦ inr (inl (equal_ℤ a b l m, l, m))
  ]
]

irreflexive : (a b : ℤ) → a ≡ b → ¬ (a <ℤ b)
irreflexive a b e h = omega (arith, ap pos_part e, ap neg_part e)

asymmetric : (a b : ℤ) → a <ℤ b → ¬ (b <ℤ a)
asymmetric a b h k = omega arith

asymmetric_eq : (a b : ℤ) → b <ℤ a → ¬ (a ≡ b)
asymmetric_eq a b h e = omega (arith, ap pos_part e, ap neg_part e)

-- A test that is false exactly where `P` holds.
abbrev pub Refutes : Bool → Type 0 → Type 0
Refutes q P = (P × (q ≡ false)) ⊎ ((¬ P) × (q ≡ true))

lexicographic :
    (a x : ℤ) (q : Bool) (P : Type 0)
    → Compared a x
    → Refutes q P
    → Refutes (ltb_ℤ x a || not (ltb_ℤ a x) && q) ((a <ℤ x) ⊎ ((a ≡ x) × P))
lexicographic a x q P (inl (lt, l, m)) r = inl (inl lt, rw (l, m) refl)
lexicographic a x q P (inr (inl (e, l, m))) (inl (p, f)) = inl (inr (e, p), rw (l, m, f) refl)
lexicographic a x q P (inr (inl (e, l, m))) (inr (np, f)) =
    inr (λ h. elim h [ inl lt ↦ irreflexive a x e lt | inr p ↦ np p.1 ], rw (l, m, f) refl)
lexicographic a x q P (inr (inr (gt, l, m))) r = inr (
  λ h. elim h [ inl lt ↦ asymmetric a x lt gt | inr p ↦ asymmetric_eq a x gt p.0 ],
  rw (l, m) refl,
)

last_number : (c z : ℤ) → Compared c z → Refutes (not (ltb_ℤ c z)) (c <ℤ z)
last_number c z (inl (lt, l, m)) = inl (lt, rw l refl)
last_number c z (inr (inl (e, l, m))) = inr (irreflexive c z e, rw l refl)
last_number c z (inr (inr (gt, l, m))) = inr (λ lt. asymmetric c z lt gt, rw l refl)

not_before-Before : (v w : Version) → Refutes (not_before v w) (Before v w)
unfolding not_before
not_before-Before (a, b, c) (x, y, z) =
    lexicographic a x _ _ (compared a x)
      (lexicographic b y _ _ (compared b y) (last_number c z (compared c z)))

pub Before-not_before : (v w : Version) → Before v w → not_before v w ≡ false
Before-not_before v w h = elim (not_before-Before v w) [ inl e ↦ e.1 | inr e ↦ absurd (e.0 h) ]

pub late-not_before : (v w : Version) → ¬ Before v w → not_before v w ≡ true
late-not_before v w h = elim (not_before-Before v w) [ inl e ↦ absurd (h e.0) | inr e ↦ e.1 ]
