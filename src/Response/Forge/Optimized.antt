-- ===== src/Response/Forge/Optimized.antt =====
-- mcstatus/responses/forge.py: `_StringBuffer`, which unpacks a text of 15 bits in each character.
use mcstatus_rust.Prelude.{
  ℕ, zero, suc, ◌+◌, ◌-◌, ◌*◌, ◌/◌, ◌%◌, ◌^◌, bit_or, not, ◌&&◌, [], ◌∷◌, ◌++◌, length, take, drop,
  ltb, ◌==◌, if◌then◌else◌,
}
use mathlib.Core.List.{reverse}
use mcstatus_rust.Prelude.Int.{ℤ, pos, negsuc, sub_ℕ}
use mcstatus_rust.Prelude.Exec.{Exec, Result, ok, err, os_error, unicode_error, pure, ◌>>=◌}
use mcstatus_rust.Io.Text.{Str, Bytes, is_surrogate}
use mcstatus_rust.Io.Struct.{short}
use mcstatus_rust.Io.Reader.{Reader, read_value}
use mcstatus_rust.Io.Buffer.{Buffer, init}

-- `stringio` holds what of the text is not read.
pub record StringBuffer : Type 0 where
  pub stringio : Str
  pub received : Bytes

-- `c.encode("utf-16be")`
unfoldable pub utf16_char : ℕ → Result Bytes
utf16_char c =
    if is_surrogate c
    then err unicode_error
    else if ltb c 0x10000
    then ok ((c / 256) ∷ (c % 256) ∷ [])
    else (let hi = 0xD800 + (c - 0x10000) / 1024 in
        let lo = 0xDC00 + (c - 0x10000) % 1024 in
        ok ((hi / 256) ∷ (hi % 256) ∷ (lo / 256) ∷ (lo % 256) ∷ []))

-- Characters are read until `length` bytes are there.
unfoldable pub fill : ℕ → Bytes → Str → Result Bytes × Str
unfolding utf16_char
fill n raw [] = (if ltb (length raw) n then err os_error else ok raw, [])
fill n raw (c ∷ text) =
    if ltb (length raw) n
    then elim (utf16_char c) [ ok bs ↦ fill n (raw ++ bs) text | err e ↦ (err e, text) ]
    else (ok raw, c ∷ text)

-- The last bytes are put back one by one, so the last comes first.
abbrev pub put_back : ℕ → Result Bytes × Str → Bytes → Result Bytes × StringBuffer
put_back n (ok raw, text) left =
    (ok (take n raw), record { stringio = text; received = left ++ reverse (drop n raw) })
put_back n (err e, text) left = (err e, record { stringio = text; received = left })

unfoldable pub read : ℕ → Exec StringBuffer Bytes
unfolding fill
read n b = put_back n (fill n (take n b.received) b.stringio) (drop n b.received)

abbrev pub string_reader : Reader StringBuffer
string_reader = record { read = read }

unfoldable pub remaining : StringBuffer → ℕ
remaining b = length b.stringio + length b.received

-- `low | (high << 15)` of two integers of 16 bits. The shifted one has no bit below the 15th. A low
-- part that is not negative has none from there on, so the OR adds; a negative one has them all, so
-- the OR keeps it.
unfoldable pub or_size : ℤ → ℤ → ℤ
or_size (negsuc n) high = negsuc n
or_size (pos n) (pos m) = pos (n + m * 2 ^ 15)
or_size (pos n) (negsuc m) = sub_ℕ n (suc m * 2 ^ 15)

unfoldable pub read_optimized_size : Exec StringBuffer ℤ
read_optimized_size = do
  low ← read_value string_reader short
  high ← read_value string_reader short
  pure (or_size low high)

-- `x & 0x7FFF`: a negative number counts from the top of its bits.
unfoldable pub low15 : ℤ → ℕ
low15 (pos n) = n % 2 ^ 15
low15 (negsuc n) = 2 ^ 15 - 1 - n % 2 ^ 15

-- `if bits < 8 and self.remaining(): …` gives the new `value` and `bits`.
unfoldable pub top_up : ℕ → ℕ → Exec StringBuffer (ℕ × ℕ)
unfolding low15
top_up value bits s =
    let more = (do
      x ← read_value string_reader short
      pure (bit_or value (low15 x * 2 ^ bits), bits + 15)) in
    if ltb bits 8 && not (remaining s == 0) then more s else (ok (value, bits), s)

-- The loop of `read_optimized_buffer`: each round writes a byte, so there are as many as bytes still
-- to come. `bits` goes below 0 only when the text is used up, and nothing looks at it from then on:
-- here it stays at 0.
unfoldable pub unpack_loop : ℕ → ℕ → ℕ → Bytes → Exec StringBuffer Bytes
unpack_loop zero value bits out = pure out
unpack_loop (suc k) value bits out = do
  (v, b) ← top_up value bits
  unpack_loop k (v / 2 ^ 8) (b - 8) (out ++ (v % 2 ^ 8) ∷ [])

-- A size that is not positive gives an empty buffer.
unfoldable pub unpack_size : ℤ → Exec StringBuffer Bytes
unfolding unpack_loop
unpack_size (pos n) = unpack_loop n 0 0 []
unpack_size (negsuc n) = pure []

unfoldable pub read_optimized_buffer : Exec StringBuffer Buffer
read_optimized_buffer = do size ← read_optimized_size; raw ← unpack_size size; pure (init raw)

-- `ForgeData._decode_optimized`
unfoldable pub decode_optimized : Str → Result Buffer
decode_optimized string = (read_optimized_buffer (record { stringio = string; received = [] })).0
