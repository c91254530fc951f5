-- ===== src/Prelude/Bits.antt =====
-- The OR of two disjoint fields, at every width.
use Prim.Native.Nat.{
  ℕ, zero, suc, ◌+◌, ◌*◌, ◌/◌, ◌%◌, ◌^◌, ◌≤◌, ◌<◌, max, bit_or, digits, bit_or-bitwise,
}
use mathlib.Core.Path.{◌≡◌, refl, ap}
use native.Mathlib.Omega.{arith}
use native.Mathlib.Nat.{pow-suc}

abbrev or_digits : ℕ → ℕ → ℕ → ℕ
or_digits n a b = digits (λ b. b) max n a b

-- Any count of rounds that is no less than the first number gives the same digits.
or_digits_rounds : (n m a b : ℕ) → a ≤ n → a ≤ m → or_digits n a b ≡ or_digits m a b
or_digits_rounds zero zero a b p q = refl
or_digits_rounds zero (suc m) zero b p q = refl
or_digits_rounds zero (suc m) (suc a) b p q = absurd (omega arith)
or_digits_rounds (suc n) zero zero b p q = refl
or_digits_rounds (suc n) zero (suc a) b p q = absurd (omega arith)
or_digits_rounds (suc n) (suc m) zero b p q = refl
or_digits_rounds (suc n) (suc m) (suc a) b p q =
    omega (arith, or_digits_rounds n m (suc a / 2) (b / 2) (omega arith) (omega arith))

zero-bit_or : (b : ℕ) → bit_or 0 b ≡ b
zero-bit_or b = bit_or-bitwise 0 b

pub bit_or_halves : (a b : ℕ) → bit_or a b ≡ bit_or (a / 2) (b / 2) * 2 + max (a % 2) (b % 2)
bit_or_halves zero b = omega (arith, zero-bit_or b, zero-bit_or (b / 2))
bit_or_halves (suc a) b = omega (
  arith,
  bit_or-bitwise (suc a) b,
  bit_or-bitwise (suc a / 2) (b / 2),
  or_digits_rounds a (suc a / 2) (suc a / 2) (b / 2) (omega arith) (omega arith),
)

twice_pow : (q k : ℕ) → q * 2 ^ suc k ≡ 2 * (q * 2 ^ k)
twice_pow q k = omega (arith, ap (λ (t : ℕ). q * t) (pow-suc 2 k))

-- `low | (high << k)` is a sum when `low` fits `k` bits.
pub bit_or_disjoint :
    (k low high : ℕ) → low < 2 ^ k → bit_or low (high * 2 ^ k) ≡ low + high * 2 ^ k
bit_or_disjoint zero low high fits = ground (arith, zero-bit_or high)
bit_or_disjoint (suc k) low high fits = ground (
  arith,
  bit_or_halves low (high * 2 ^ suc k),
  twice_pow high k,
  pow-suc 2 k,
  bit_or_disjoint k (low / 2) high (omega (arith, pow-suc 2 k)),
)
