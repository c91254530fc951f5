-- ===== src/Io/Text.antt =====
-- Python's text codecs, as base_io.py uses them: `bytes(value, "ISO-8859-1")`,
-- `bytes(value, "utf-8")` and the strict decoders. A `str` is a list of code points.
pub mod Utf8
use mcstatus_rust.Prelude.{
  ℕ, zero, suc, ◌+◌, ◌-◌, ◌*◌, ◌/◌, ◌%◌, Bool, true, false, not, ◌&&◌, ◌||◌, List, [], ◌∷◌, ◌++◌,
  ltb, leb, ◌==◌, if◌then◌else◌,
}
use mcstatus_rust.Prelude.Exec.{Result, ok, err, unicode_error, bind_result}

abbrev pub Str : Type 0
Str = List ℕ

abbrev pub Bytes : Type 0
Bytes = List ℕ

abbrev pub cons_ok : ℕ → Result (List ℕ) → Result (List ℕ)
cons_ok c (ok cs) = ok (c ∷ cs)
cons_ok c (err e) = err e

unfoldable pub latin1_encode : Str → Result Bytes
latin1_encode [] = ok []
latin1_encode (c ∷ s) =
    let rest = latin1_encode s in if ltb c 256 then cons_ok c rest else err unicode_error

abbrev pub latin1_decode : Bytes → Str
latin1_decode bs = bs

abbrev pub is_surrogate : ℕ → Bool
is_surrogate c = leb 0xD800 c && ltb c 0xE000

-- The bytes of one code point below 0x110000.
unfoldable pub utf8_char : ℕ → Bytes
utf8_char c =
    if ltb c 0x80
    then c ∷ []
    else if ltb c 0x800
    then (0xC0 + c / 64) ∷ (0x80 + c % 64) ∷ []
    else if ltb c 0x10000
    then (0xE0 + c / 4096) ∷ (0x80 + c / 64 % 64) ∷ (0x80 + c % 64) ∷ []
    else (0xF0 + c / 262144) ∷ (0x80 + c / 4096 % 64) ∷ (0x80 + c / 64 % 64) ∷ (0x80 + c % 64) ∷ []

-- A lone surrogate cannot be encoded.
unfoldable pub utf8_encode : Str → Result Bytes
utf8_encode [] = ok []
utf8_encode (c ∷ s) =
    let rest = bind_result (utf8_encode s) (λ bs. ok (utf8_char c ++ bs)) in
    if is_surrogate c then err unicode_error else rest

-- What the first byte of a sequence says: is it one, how many bytes follow, its share of the code
-- point, and the least code point that needs that length.
abbrev pub is_lead : ℕ → Bool
is_lead b = leb 0xC0 b && ltb b 0xF8

abbrev pub lead_more : ℕ → ℕ
lead_more b = if ltb b 0x80 then 0 else if ltb b 0xE0 then 1 else if ltb b 0xF0 then 2 else 3

abbrev pub lead_bits : ℕ → ℕ
lead_bits b = if ltb b 0xE0 then b - 0xC0 else if ltb b 0xF0 then b - 0xE0 else b - 0xF0

abbrev pub lead_least : ℕ → ℕ
lead_least b = if ltb b 0xE0 then 0x80 else if ltb b 0xF0 then 0x800 else 0x10000

-- Strict: no overlong form, no surrogate, nothing above 0x10FFFF.
abbrev pub is_scalar : ℕ → ℕ → Bool
is_scalar least c = leb least c && ltb c 0x110000 && not (is_surrogate c)

-- The arguments are the bytes still due, the bits read so far and the least code point.
unfoldable pub utf8_from : ℕ → ℕ → ℕ → Bytes → Result Str
utf8_from zero acc least [] = ok []
utf8_from (suc k) acc least [] = err unicode_error
utf8_from zero acc least (b ∷ bs) =
    let rest = utf8_from (lead_more b) (lead_bits b) (lead_least b) bs in
    if ltb b 0x80 then cons_ok b rest else if is_lead b then rest else err unicode_error
utf8_from (suc k) acc least (b ∷ bs) =
    let c = acc * 64 + b % 64 in
    let rest = utf8_from k c least bs in
    if not (leb 0x80 b && ltb b 0xC0)
    then err unicode_error
    else if k == 0
    then (if is_scalar least c then cons_ok c rest else err unicode_error)
    else rest

unfoldable pub utf8_decode : Bytes → Result Str
unfolding utf8_from
utf8_decode bs = utf8_from 0 0 0 bs
