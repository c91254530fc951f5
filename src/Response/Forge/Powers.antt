-- ===== src/Response/Forge/Powers.antt =====
-- mcstatus/responses/forge.py: the arithmetic of the change of base in `_decode_optimized`.
use mcstatus_rust.Prelude.{ℕ, zero, suc, ◌+◌, ◌-◌, ◌*◌, ◌^◌, ◌≤◌, ◌<◌, ◌≡◌, ap, ◌∙◌, arith}
use native.Mathlib.Nat.{mul-add, mul_assoc, mul_comm, mul_left_comm, pow-suc, mul-le-mul_right}

pow_plus : (k b : ℕ) → 2 ^ (k + b) ≡ 2 ^ k * 2 ^ b
pow_plus zero b =
    let z : 0 + b ≡ b = omega arith in let e = ap (λ (t : ℕ). 2 ^ t) z in omega (arith, e)
pow_plus (suc k) b =
    let z : suc k + b ≡ suc (k + b) = omega arith in
    omega (
      arith,
      ap (λ (t : ℕ). 2 ^ t) z,
      pow-suc 2 (k + b),
      pow_plus k b,
      ap (λ (t : ℕ). t * 2 ^ b) (pow-suc 2 k),
    )

pub pow_15 : (b : ℕ) → 2 ^ (b + 15) ≡ 32768 * 2 ^ b
pow_15 b = ap (λ (t : ℕ). 2 ^ t) (omega arith) ∙ pow_plus 15 b

pub pow_8 : (b : ℕ) → 8 ≤ b → 2 ^ b ≡ 256 * 2 ^ (b - 8)
pow_8 b h = let e : b ≡ 8 + (b - 8) = omega arith in ap (λ (t : ℕ). 2 ^ t) e ∙ pow_plus 8 (b - 8)

pub fits_more : (value x c y : ℕ) → value < x → c < 32768 → y ≡ 32768 * x → value + c * x < y
fits_more value x c y h k e =
    let le : (c + 1) * x ≤ 32768 * x = mul-le-mul_right x (omega arith) in grind arith

pub same_more :
    (value x c d y : ℕ) → y ≡ 32768 * x → value + c * x + y * d ≡ value + x * (c + 32768 * d)
same_more value x c d y e = rw e (
    omega
      (arith, mul_assoc 32768 x d, mul_left_comm x 32768 d, mul_comm c x, mul-add x c (32768 * d)))
