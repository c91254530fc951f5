-- ===== src/Prelude/Tests.antt =====
-- Boolean tests on the native numbers and on lists of them, the conditional, and case lemmas.
use Prim.Native.Nat.{ℕ, ◌≤◌, ◌<◌, compare, Ordering}
use mathlib.Core.Path.{◌≡◌, refl}
use mathlib.Core.Logic.{◌↔◌, ◌⊎◌, inl, inr}
use mathlib.Core.Bool.{Bool, true, false, ◌&&◌}
use mathlib.Core.Option.{Option, none, some}
use mathlib.Core.List.{List, [], ◌∷◌}
use native.Mathlib.Omega.{arith}

abbrev pub ltb : ℕ → ℕ → Bool
ltb a b = elim (compare a b) [ Ordering.lt ↦ true | _ ↦ false ]

abbrev pub leb : ℕ → ℕ → Bool
leb a b = elim (compare a b) [ Ordering.gt ↦ false | _ ↦ true ]

infix 50 ◌==◌
abbrev pub ◌==◌ : ℕ → ℕ → Bool
a == b = elim (compare a b) [ Ordering.eq ↦ true | _ ↦ false ]

infix 1 if◌then◌else◌
abbrev pub if◌then◌else◌ {ℓ} : {A : Type ℓ} → Bool → A → A → A
if true then x else y = x
if false then x else y = y

pub ltb→lt : (a b : ℕ) → ltb a b ≡ true → a < b
ltb→lt a b h = ground arith

pub lt→ltb : (a b : ℕ) → a < b → ltb a b ≡ true
lt→ltb a b h = ground arith

pub leb→le : (a b : ℕ) → leb a b ≡ true → a ≤ b
leb→le a b h = ground arith

pub not_ltb : (a b : ℕ) → b ≤ a → ltb a b ≡ false
not_ltb a b h = ground arith

pub ==_iff : (a b : ℕ) → ((a == b) ≡ true) ↔ (a ≡ b)
==_iff a b = ground arith

-- To split on a computed value and keep the equation.
pub Bool-cases : (b : Bool) → (b ≡ true) ⊎ (b ≡ false)
Bool-cases true = inl refl
Bool-cases false = inr refl

pub Option-cases {ℓ} : {A : Type ℓ} (o : Option A) → (o ≡ none) ⊎ ((a : A) × (o ≡ some a))
Option-cases none = inl refl
Option-cases (some a) = inr (a, refl)

-- Equality of two texts, given as lists of code points or bytes.
infix 50 ◌=s=◌
abbrev pub ◌=s=◌ : List ℕ → List ℕ → Bool
[] =s= [] = true
[] =s= (b ∷ bs) = false
(a ∷ as') =s= [] = false
(a ∷ as') =s= (b ∷ bs) = (a == b) && as' =s= bs

pub =s=_refl : (a : List ℕ) → (a =s= a) ≡ true
=s=_refl [] = refl
=s=_refl (x ∷ xs) = ground (arith, =s=_refl xs)

pub =s=→eq : (a b : List ℕ) → (a =s= b) ≡ true → a ≡ b
=s=→eq [] [] h = refl
=s=→eq [] (b ∷ bs) h = ground arith
=s=→eq (a ∷ s) [] h = ground arith
=s=→eq (a ∷ s) (b ∷ bs) h = ground (arith, =s=→eq s bs)
