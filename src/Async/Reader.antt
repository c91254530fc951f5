-- ===== src/Async/Reader.antt =====
-- mcstatus/_protocol/io/base_io.py: `BaseAsyncReader`, in tasks.
pub mod Runs
use mcstatus_rust.Prelude.{
  ℕ, zero, suc, ◌+◌, ◌-◌, ◌*◌, ◌/◌, ◌%◌, ◌^◌, bit_or, Bool, true, false, Option, none, some, List,
  [], ◌∷◌, ◌++◌, length, ltb, ◌==◌, if◌then◌else◌,
}
use mcstatus_rust.Prelude.Int.{ℤ, pos, negsuc, pos_part}
use mcstatus_rust.Prelude.Exec.{os_error, out_of_rounds}
use mcstatus_rust.Async.Task.{Task, pure, raise, lift, ◌>>=◌, ◌>>◌}
use mcstatus_rust.Io.Twos.{from_twos_complement}
use mcstatus_rust.Io.Struct.{IntFormat, ubyte, calcsize, unpack, unpack_bool}
use mcstatus_rust.Io.Text.{Str, Bytes, latin1_decode, utf8_decode}
use mcstatus_rust.Io.Writer.{max_chars}
use mcstatus_rust.Io.Reader.{max_bytes, ends_null, but_last}

pub record AsyncReader (Op : Type 0) (Answer : Op → Type 0) : Type 0 where
  pub read : ℕ → Task Op Answer Bytes

module _ {Op : Type 0} {Answer : Op → Type 0} (r : AsyncReader Op Answer) where
  -- `read_value` of an integer format.
  unfoldable pub read_value : IntFormat → Task Op Answer ℤ
  read_value fmt = do raw ← r.read (calcsize fmt); lift (unpack fmt raw)

  -- `read_value` of the format `?`.
  unfoldable pub read_bool : Task Op Answer Bool
  read_bool = do raw ← r.read 1; lift (unpack_bool raw)

  -- The loop of `_read_varuint`: rounds left, `i` and `result`. A UBYTE is never negative.
  unfoldable pub varuint_loop : ℕ → ℕ → ℕ → ℕ → Task Op Answer ℕ
  varuint_loop max_bits zero i result = raise os_error
  varuint_loop max_bits (suc k) i result = do
    value ← read_value ubyte
    let b = pos_part value
    let result' = bit_or result (b % 2 ^ 7 * 2 ^ (7 * i))
    let more = varuint_loop max_bits k (i + 1) result'
    if ltb (2 ^ max_bits - 1) result'
        then raise os_error
        else if b / 2 ^ 7 % 2 == 0
        then pure result'
        else more

  -- `_read_varuint` with `max_bits` given, as both callers give it; `math.ceil(max_bits / 7)` rounds.
  unfoldable pub read_varuint : ℕ → Task Op Answer ℕ
  unfolding varuint_loop
  read_varuint max_bits = varuint_loop max_bits ((max_bits + 6) / 7) 0 0

  unfoldable pub read_varint : Task Op Answer ℤ
  read_varint = do n ← read_varuint 32; lift (from_twos_complement (pos n) 32)

  unfoldable pub read_varlong : Task Op Answer ℤ
  read_varlong = do n ← read_varuint 64; lift (from_twos_complement (pos n) 64)

  -- `self.read(length)` behind the test for a negative length prefix.
  unfoldable pub read_prefix : ℤ → Task Op Answer ℕ
  read_prefix (pos n) = pure n
  read_prefix (negsuc n) = raise os_error

  unfoldable pub read_bytearray : Task Op Answer Bytes
  read_bytearray = do prefix ← read_varint; n ← read_prefix prefix; r.read n

  -- The loop of `read_ascii`; the first argument bounds the rounds.
  unfoldable pub ascii_loop : ℕ → Bytes → Task Op Answer Str
  ascii_loop zero result = raise out_of_rounds
  ascii_loop (suc k) result = do
    b ← r.read 1
    let more = ascii_loop k (result ++ b)
    if ends_null (result ++ b) then pure (latin1_decode (but_last (result ++ b))) else more

  unfoldable pub read_ascii : ℕ → Task Op Answer Str
  unfolding ascii_loop
  read_ascii rounds = ascii_loop rounds []

  unfoldable pub read_utf : Task Op Answer Str
  read_utf = do
    prefix ← read_varint
    n ← read_prefix prefix
    if ltb max_bytes n then raise os_error else do
      raw ← r.read n
      chars ← lift (utf8_decode raw)
      if ltb max_chars (length chars) then raise os_error else pure chars

  unfoldable pub read_optional : {A : Type 0} → Task Op Answer A → Task Op Answer (Option A)
  read_optional reader = do
    present ← read_bool
    let more = (do a ← reader; pure (some a))
    if present then more else pure none
