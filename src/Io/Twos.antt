-- ===== src/Io/Twos.antt =====
-- mcstatus/_protocol/io/base_io.py: `to_twos_complement` and `from_twos_complement`.
pub mod RoundTrip
use mcstatus_rust.Prelude.{ℕ, suc, ◌-◌, ◌/◌, ◌%◌, ◌^◌, ltb, leb, ◌==◌, ◌||◌, if◌then◌else◌}
use mcstatus_rust.Prelude.Int.{ℤ, pos, negsuc}
use mcstatus_rust.Prelude.Exec.{Result, ok, err, value_error}

-- With `bits` at 0 the shift count is negative, which Python answers by a `ValueError` too.
unfoldable pub to_twos_complement : ℤ → ℕ → Result ℕ
to_twos_complement (pos n) bits =
    if bits == 0 || leb (2 ^ (bits - 1)) n then err value_error else ok n
to_twos_complement (negsuc n) bits =
    if bits == 0 || ltb (2 ^ (bits - 1)) (suc n) then err value_error else ok (2 ^ bits - suc n)

-- The sign bit of `n` is its binary digit `bits - 1`.
unfoldable pub from_twos_complement : ℤ → ℕ → Result ℤ
from_twos_complement (negsuc n) bits = err value_error
from_twos_complement (pos n) bits =
    if ltb (2 ^ bits - 1) n || bits == 0
    then err value_error
    else if n / 2 ^ (bits - 1) % 2 == 0
    then ok (pos n)
    else ok (negsuc (2 ^ bits - 1 - n))
