-- ===== src/Io/Twos/RoundTrip.antt =====
-- mcstatus/_protocol/io/base_io.py: the two conversions together, and out of range.
use mcstatus_rust.Prelude.{
  ℕ, suc, ◌-◌, ◌*◌, ◌/◌, ◌%◌, ◌^◌, ◌≤◌, ◌<◌, ◌≡◌, refl, inl, inr, Bool-cases, arith, ltb, ltb→lt,
}
use mcstatus_rust.Prelude.Int.{ℤ, pos, negsuc}
use mcstatus_rust.Prelude.Exec.{ok, err, value_error}
use mcstatus_rust.Io.Twos.{to_twos_complement, from_twos_complement}
use native.Mathlib.Nat.{pow-suc, one-le-pow}

-- The integers that `suc k` bits hold.
abbrev pub InRange : ℕ → ℤ → Type 0
InRange k (pos n) = n < 2 ^ k
InRange k (negsuc n) = suc n ≤ 2 ^ k

sign_clear : (m n : ℕ) → n < m → n / m % 2 ≡ 0
sign_clear m n h = grind arith

sign_set : (m n : ℕ) → m ≤ n → n < 2 * m → n / m % 2 ≡ 1
sign_set m n h k = grind arith

-- In range the conversion gives a number of `suc k` bits, which converts back to the integer.
pub from-to_twos :
    (k : ℕ) (z : ℤ)
    → InRange k z
    → (w : ℕ) × (to_twos_complement z (suc k) ≡ ok w)
      × (w < 2 ^ suc k)
      × (from_twos_complement (pos w) (suc k) ≡ ok z)
unfolding to_twos_complement from_twos_complement
from-to_twos k (pos n) h =
    (n, ground arith, omega (arith, pow-suc 2 k), ground (arith, pow-suc 2 k, sign_clear (2 ^ k) n))
from-to_twos k (negsuc n) h = (
  2 ^ suc k - suc n,
  ground arith,
  omega (arith, pow-suc 2 k),
  ground (arith, pow-suc 2 k, sign_set (2 ^ k) (2 ^ suc k - suc n)),
)

-- Every number of `suc k` bits converts to an integer in range, which converts back to the number.
to-from_twos :
    (k n : ℕ)
    → n < 2 ^ suc k
    → (z : ℤ) × (from_twos_complement (pos n) (suc k) ≡ ok z)
      × InRange k z
      × (to_twos_complement z (suc k) ≡ ok n)
unfolding to_twos_complement from_twos_complement
to-from_twos k n h = elim (Bool-cases (ltb n (2 ^ k))) [
  | inl low ↦
      (pos n, ground (arith, pow-suc 2 k, sign_clear (2 ^ k) n), ltb→lt n (2 ^ k) low, ground arith)
  | inr high ↦ (
    negsuc (2 ^ suc k - 1 - n),
    ground (arith, pow-suc 2 k, sign_set (2 ^ k) n),
    ground (arith, pow-suc 2 k),
    ground (arith, pow-suc 2 k),
  )
]

-- The two conversions are inverse to each other, between the integers in range and the numbers of
-- `suc k` bits.
pub twos_inverse :
    (k n : ℕ) (z : ℤ)
    → InRange k z
    → n < 2 ^ suc k
    → ((w : ℕ) × (to_twos_complement z (suc k) ≡ ok w)
        × (w < 2 ^ suc k)
        × (from_twos_complement (pos w) (suc k) ≡ ok z))
      × ((y : ℤ) × (from_twos_complement (pos n) (suc k) ≡ ok y)
          × InRange k y
          × (to_twos_complement y (suc k) ≡ ok n))
twos_inverse k n z h l = (from-to_twos k z h, to-from_twos k n l)

-- Both conversions raise `ValueError` on every number out of range.
pub twos_out_of_range :
    (k : ℕ) (z : ℤ)
    → (¬ InRange k z → to_twos_complement z (suc k) ≡ err value_error)
      × ((n : ℕ) → 2 ^ suc k ≤ n → from_twos_complement (pos n) (suc k) ≡ err value_error)
      × ((n : ℕ) → from_twos_complement (negsuc n) (suc k) ≡ err value_error)
unfolding to_twos_complement from_twos_complement
twos_out_of_range k (pos n) =
    (λ h. ground arith, λ m h. ground (arith, one-le-pow (suc k) 2), λ m. refl)
twos_out_of_range k (negsuc n) =
    (λ h. ground arith, λ m h. ground (arith, one-le-pow (suc k) 2), λ m. refl)
