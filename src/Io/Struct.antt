-- ===== src/Io/Struct.antt =====
-- mcstatus/_protocol/io/base_io.py: the integer formats, and what Python's `struct` does with them
-- in big-endian mode.
pub mod RoundTrip
use mcstatus_rust.Prelude.{
  ℕ, zero, suc, ◌+◌, ◌-◌, ◌*◌, ◌/◌, ◌%◌, ◌^◌, Bool, true, false, not, ◌&&◌, List, [], ◌∷◌, length,
  ltb, leb, ◌==◌, if◌then◌else◌,
}
use mcstatus_rust.Prelude.Int.{ℤ, pos, negsuc}
use mcstatus_rust.Prelude.Exec.{Result, ok, err, struct_error}

-- The formats of `INT_FORMATS_TYPE`.
pub data IntFormat : Type 0 where
  byte ubyte short ushort int uint long ulong longlong ulonglong : IntFormat

-- The size behind `>`: `struct.pack(">" + fmt.value, …)` and `struct.unpack(">" + fmt.value, …)`.
unfoldable pub standard_size : IntFormat → ℕ
standard_size byte = 1
standard_size ubyte = 1
standard_size short = 2
standard_size ushort = 2
standard_size int = 4
standard_size uint = 4
standard_size long = 4
standard_size ulong = 4
standard_size longlong = 8
standard_size ulonglong = 8

-- `struct.calcsize(fmt.value)` has no `>`, so it gives the size of the C type, here that of 64-bit
-- Linux and macOS, where a `long` has 8 bytes.
unfoldable pub calcsize : IntFormat → ℕ
unfolding standard_size
calcsize long = 8
calcsize ulong = 8
calcsize byte = standard_size byte
calcsize fmt = standard_size fmt

unfoldable pub is_signed : IntFormat → Bool
is_signed byte = true
is_signed short = true
is_signed int = true
is_signed long = true
is_signed longlong = true
is_signed fmt = false

-- The lowest `w` bytes of a number, highest first.
unfoldable pub to_be : ℕ → ℕ → List ℕ
to_be zero n = []
to_be (suc w) n = (n / 256 ^ w % 256) ∷ to_be w n

unfoldable pub from_be : List ℕ → ℕ
from_be [] = 0
from_be (b ∷ bs) = b * 256 ^ length bs + from_be bs

-- `struct.pack`: `struct.error` out of range.
unfoldable pub pack : IntFormat → ℤ → Result (List ℕ)
pack fmt (pos n) =
    let w = standard_size fmt in
    if ltb n (if is_signed fmt then 256 ^ w / 2 else 256 ^ w)
    then ok (to_be w n)
    else err struct_error
pack fmt (negsuc n) =
    let w = standard_size fmt in
    if is_signed fmt && ltb n (256 ^ w / 2)
    then ok (to_be w (256 ^ w - suc n))
    else err struct_error

-- `struct.unpack`: `struct.error` where the data has another length than the format.
unfoldable pub unpack : IntFormat → List ℕ → Result ℤ
unpack fmt raw =
    let w = standard_size fmt in
    let n = from_be raw in
    if not (length raw == w)
    then err struct_error
    else if is_signed fmt && leb (256 ^ w / 2) n
    then ok (negsuc (256 ^ w - suc n))
    else ok (pos n)

-- The format `?`.
unfoldable pub pack_bool : Bool → List ℕ
pack_bool b = (if b then 1 else 0) ∷ []

unfoldable pub unpack_bool : List ℕ → Result Bool
unpack_bool (b ∷ []) = ok (not (b == 0))
unpack_bool raw = err struct_error
