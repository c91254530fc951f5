-- ===== src/Io/Writer.antt =====
-- mcstatus/_protocol/io/base_io.py: `BaseSyncWriter`. The abstract method `write` is a field of an
-- interface, and the methods that call it take the interface. `BaseAsyncWriter` has the same
-- methods under `await`.
pub mod Encode
pub mod Refine
use mcstatus_rust.Prelude.{
  ℕ, zero, suc, ◌+◌, ◌-◌, ◌*◌, ◌/◌, ◌%◌, ◌^◌, Bool, true, false, Option, none, some, List, [], ◌∷◌,
  ◌++◌, length, ltb, ◌==◌, if◌then◌else◌,
}
use mcstatus_rust.Prelude.Int.{ℤ, pos, negsuc}
use mcstatus_rust.Prelude.Exec.{
  Exec, Result, ok, err, value_error, out_of_rounds, pure, raise, lift, ◌>>=◌, ◌>>◌,
}
use mcstatus_rust.Io.Twos.{to_twos_complement}
use mcstatus_rust.Io.Struct.{IntFormat, ubyte, pack, pack_bool}
use mcstatus_rust.Io.Text.{Str, Bytes, latin1_encode, utf8_encode}

pub record Writer (S : Type 0) : Type 0 where
  pub write : Bytes → Exec S (Unit {0})

-- The limit on the characters of a string.
abbrev pub max_chars : ℕ
max_chars = 32767

module _ {S : Type 0} (w : Writer S) where
  -- `write_value` of an integer format.
  unfoldable pub write_value : IntFormat → ℤ → Exec S (Unit {0})
  write_value fmt z = do raw ← lift (pack fmt z); w.write raw

  -- `write_value` of the format `?`.
  unfoldable pub write_bool : Bool → Exec S (Unit {0})
  write_bool b = w.write (pack_bool b)

  -- The loop of `_write_varuint`. `remaining & ~0x7F` is 0 exactly if nothing is above the lowest 7
  -- bits, and the OR with 0x80 sets a bit that the mask has cleared. The first argument bounds the
  -- rounds.
  unfoldable pub varuint_loop : ℕ → ℕ → Exec S (Unit {0})
  varuint_loop zero remaining = raise out_of_rounds
  varuint_loop (suc k) remaining =
      let more = varuint_loop k (remaining / 2 ^ 7) in
      if remaining / 2 ^ 7 == 0
      then write_value ubyte (pos remaining)
      else (do write_value ubyte (pos (remaining % 2 ^ 7 + 0x80)); more)

  -- `_write_varuint` with `max_bits` given, as both callers give it.
  unfoldable pub write_varuint : ℤ → ℕ → Exec S (Unit {0})
  unfolding varuint_loop
  write_varuint (negsuc n) max_bits = raise value_error
  write_varuint (pos n) max_bits =
      if ltb (2 ^ max_bits - 1) n then raise value_error else varuint_loop (suc max_bits) n

  unfoldable pub write_varint : ℤ → Exec S (Unit {0})
  write_varint z = do n ← lift (to_twos_complement z 32); write_varuint (pos n) 32

  unfoldable pub write_varlong : ℤ → Exec S (Unit {0})
  write_varlong z = do n ← lift (to_twos_complement z 64); write_varuint (pos n) 64

  unfoldable pub write_bytearray : Bytes → Exec S (Unit {0})
  write_bytearray raw = do write_varint (pos (length raw)); w.write raw

  unfoldable pub write_ascii : Str → Exec S (Unit {0})
  write_ascii value = do raw ← lift (latin1_encode value); w.write raw; w.write (0 ∷ [])

  unfoldable pub write_utf : Str → Exec S (Unit {0})
  write_utf value =
      if ltb max_chars (length value)
      then raise value_error
      else do raw ← lift (utf8_encode value); write_varint (pos (length raw)); w.write raw

  unfoldable pub write_optional : {A R : Type 0} → Option A → (A → Exec S R) → Exec S (Option R)
  write_optional none writer = do write_bool false; pure none
  write_optional (some a) writer = do write_bool true; r ← writer a; pure (some r)
