-- ===== src/Io/Reader.antt =====
-- mcstatus/_protocol/io/base_io.py: `BaseSyncReader`. The abstract method `read` is a field of an
-- interface, and the methods that call it take the interface. `BaseAsyncReader` has the same
-- methods under `await`.
pub mod Stream
pub mod Refine
pub mod Varint
pub mod RoundTrip
pub mod Compose
pub mod Long
use mcstatus_rust.Prelude.{
  ℕ, zero, suc, ◌+◌, ◌-◌, ◌*◌, ◌/◌, ◌%◌, ◌^◌, bit_or, Bool, true, false, Option, none, some, List,
  [], ◌∷◌, ◌++◌, length, ltb, ◌==◌, if◌then◌else◌,
}
use mcstatus_rust.Prelude.Int.{ℤ, pos, negsuc, pos_part}
use mcstatus_rust.Prelude.Exec.{Exec, os_error, out_of_rounds, pure, raise, lift, ◌>>=◌, ◌>>◌}
use mcstatus_rust.Io.Twos.{from_twos_complement}
use mcstatus_rust.Io.Struct.{IntFormat, ubyte, calcsize, unpack, unpack_bool}
use mcstatus_rust.Io.Text.{Str, Bytes, latin1_decode, utf8_decode}
use mcstatus_rust.Io.Writer.{max_chars}

pub record Reader (S : Type 0) : Type 0 where
  pub read : ℕ → Exec S Bytes

-- The limit on the bytes of a string.
abbrev pub max_bytes : ℕ
max_bytes = 131068

-- `result[-1] == 0` of a `bytearray` that is not empty.
unfoldable pub ends_null : Bytes → Bool
ends_null [] = false
ends_null (b ∷ []) = b == 0
ends_null (b ∷ c ∷ bs) = ends_null (c ∷ bs)

-- `result[:-1]`
unfoldable pub but_last : Bytes → Bytes
but_last [] = []
but_last (b ∷ []) = []
but_last (b ∷ c ∷ bs) = b ∷ but_last (c ∷ bs)

module _ {S : Type 0} (r : Reader S) where
  -- `read_value` of an integer format.
  unfoldable pub read_value : IntFormat → Exec S ℤ
  read_value fmt = do raw ← r.read (calcsize fmt); lift (unpack fmt raw)

  -- `read_value` of the format `?`.
  unfoldable pub read_bool : Exec S Bool
  read_bool = do raw ← r.read 1; lift (unpack_bool raw)

  -- The loop of `_read_varuint`: rounds left, `i` and `result`. A UBYTE is never negative.
  unfoldable pub varuint_loop : ℕ → ℕ → ℕ → ℕ → Exec S ℕ
  varuint_loop max_bits zero i result = raise os_error
  varuint_loop max_bits (suc k) i result = do
    value ← read_value ubyte
    let b = pos_part value
    let result' = bit_or result (b % 2 ^ 7 * 2 ^ (7 * i))
    let more = varuint_loop max_bits k (i + 1) result'
    if ltb (2 ^ max_bits - 1) result'
        then raise os_error
        else if b / 2 ^ 7 % 2 == 0
        then pure result'
        else more

  -- `_read_varuint` with `max_bits` given, as both callers give it; `math.ceil(max_bits / 7)` rounds.
  unfoldable pub read_varuint : ℕ → Exec S ℕ
  unfolding varuint_loop
  read_varuint max_bits = varuint_loop max_bits ((max_bits + 6) / 7) 0 0

  unfoldable pub read_varint : Exec S ℤ
  read_varint = do n ← read_varuint 32; lift (from_twos_complement (pos n) 32)

  unfoldable pub read_varlong : Exec S ℤ
  read_varlong = do n ← read_varuint 64; lift (from_twos_complement (pos n) 64)

  -- `self.read(length)` behind the test for a negative length prefix.
  unfoldable pub read_prefix : ℤ → Exec S ℕ
  read_prefix (pos n) = pure n
  read_prefix (negsuc n) = raise os_error

  unfoldable pub read_bytearray : Exec S Bytes
  read_bytearray = do prefix ← read_varint; n ← read_prefix prefix; r.read n

  -- The loop of `read_ascii`; the first argument bounds the rounds.
  unfoldable pub ascii_loop : ℕ → Bytes → Exec S Str
  ascii_loop zero result = raise out_of_rounds
  ascii_loop (suc k) result = do
    b ← r.read 1
    let more = ascii_loop k (result ++ b)
    if ends_null (result ++ b) then pure (latin1_decode (but_last (result ++ b))) else more

  unfoldable pub read_ascii : ℕ → Exec S Str
  unfolding ascii_loop
  read_ascii rounds = ascii_loop rounds []

  unfoldable pub read_utf : Exec S Str
  read_utf = do
    prefix ← read_varint
    n ← read_prefix prefix
    if ltb max_bytes n then raise os_error else do
      raw ← r.read n
      chars ← lift (utf8_decode raw)
      if ltb max_chars (length chars) then raise os_error else pure chars

  unfoldable pub read_optional : {A : Type 0} → Exec S A → Exec S (Option A)
  read_optional reader = do
    present ← read_bool
    let more = (do a ← reader; pure (some a))
    if present then more else pure none
