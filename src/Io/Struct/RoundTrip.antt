-- ===== src/Io/Struct/RoundTrip.antt =====
-- mcstatus/_protocol/io/base_io.py: `pack` and `unpack` of the integer formats.
use mcstatus_rust.Prelude.{
  ℕ, zero, suc, ◌+◌, ◌-◌, ◌*◌, ◌/◌, ◌%◌, ◌^◌, ◌<◌, ◌≡◌, refl, ap, ◌∙◌, List, length, arith,
}
use mcstatus_rust.Prelude.Int.{ℤ, pos, negsuc}
use mcstatus_rust.Prelude.Exec.{ok}
use mcstatus_rust.Io.Struct.{IntFormat, standard_size, to_be, from_be, pack, unpack}
use native.Mathlib.Nat.{
  pow-suc, one-le-pow, div-add-mod, mod-eq-sub-mul-div, div-div-eq-div-mul, mod-eq_of_lt,
}

pub length-to_be : (w n : ℕ) → length (to_be w n) ≡ w
unfolding to_be
length-to_be zero n = refl
length-to_be (suc w) n = ap suc (length-to_be w n)

split_byte : (m n : ℕ) → 0 < m → n / m % 256 * m + n % m ≡ n % (m * 256)
split_byte m n h =
    let low : m * (n / m) + n % m ≡ n = div-add-mod n m in
    let both : n % (m * 256) ≡ n - m * 256 * (n / (m * 256)) = mod-eq-sub-mul-div n (m * 256) in
    let digit : 256 * (n / m / 256) + n / m % 256 ≡ n / m = div-add-mod (n / m) 256 in
    let high : n / m / 256 ≡ n / (m * 256) = div-div-eq-div-mul n m 256 in
    rw (both, ← high) (omega (arith, low, ap (λ (t : ℕ). m * t) digit))

pub from_be-to_be : (w n : ℕ) → from_be (to_be w n) ≡ n % 256 ^ w
unfolding to_be from_be
from_be-to_be zero n = omega arith
from_be-to_be (suc w) n = ground (
  arith,
  length-to_be w n,
  from_be-to_be w n,
  split_byte (256 ^ w) n,
  one-le-pow w 256,
  pow-suc 256 w,
)

pub from_be-to_be_of_lt : (w n : ℕ) → n < 256 ^ w → from_be (to_be w n) ≡ n
from_be-to_be_of_lt w n h = from_be-to_be w n ∙ mod-eq_of_lt h

-- Whatever `pack` writes, `unpack` in the same format reads back.
pub unpack-pack :
    (fmt : IntFormat) (z : ℤ) (bs : List ℕ) → pack fmt z ≡ ok bs → unpack fmt bs ≡ ok z
unfolding pack unpack
unpack-pack fmt (pos n) bs h =
    ground (arith, from_be-to_be_of_lt (standard_size fmt) n, length-to_be (standard_size fmt) n)
unpack-pack fmt (negsuc n) bs h = ground (
  arith,
  from_be-to_be_of_lt (standard_size fmt) (256 ^ standard_size fmt - suc n),
  length-to_be (standard_size fmt) (256 ^ standard_size fmt - suc n),
)

-- `pack` writes as many bytes as the format has.
pub length-pack :
    (fmt : IntFormat) (z : ℤ) (bs : List ℕ) → pack fmt z ≡ ok bs → length bs ≡ standard_size fmt
unfolding pack
length-pack fmt (pos n) bs h = ground (arith, length-to_be (standard_size fmt) n)
length-pack fmt (negsuc n) bs h =
    ground (arith, length-to_be (standard_size fmt) (256 ^ standard_size fmt - suc n))
