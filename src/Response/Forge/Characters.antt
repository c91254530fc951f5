-- ===== src/Response/Forge/Characters.antt =====
-- mcstatus/responses/forge.py: reading a character below 2 ^ 15 from `_StringBuffer`.
use mcstatus_rust.Prelude.{
  ℕ, ◌+◌, ◌*◌, ◌/◌, ◌%◌, ◌^◌, ◌<◌, ◌≡◌, refl, ap, ◌∙◌, false, [], ◌∷◌, leb, lt→ltb, arith,
}
use mcstatus_rust.Prelude.Int.{pos}
use mcstatus_rust.Prelude.Exec.{ok, bind_ok, lift_ok}
use mcstatus_rust.Io.Text.{Str, is_surrogate}
use mcstatus_rust.Io.Struct.{short, unpack, calcsize, standard_size, is_signed, from_be}
use mcstatus_rust.Io.Reader.{read_value}
use mcstatus_rust.Response.Forge.Optimized.{
  StringBuffer, utf16_char, fill, put_back, read, string_reader,
}

-- A text with nothing put back.
abbrev pub fresh : Str → StringBuffer
fresh text = record { stringio = text; received = [] }

no_surrogate : (c : ℕ) → c < 2 ^ 15 → is_surrogate c ≡ false
no_surrogate c h = ground arith

utf16_low : (c : ℕ) → c < 2 ^ 15 → utf16_char c ≡ ok ((c / 256) ∷ (c % 256) ∷ [])
unfolding utf16_char
utf16_low c h = rw (no_surrogate c h, lt→ltb c 0x10000 (omega arith))

fill_nil : (a b : ℕ) (text : Str) → fill 2 (a ∷ b ∷ []) text ≡ (ok (a ∷ b ∷ []), text)
unfolding fill
fill_nil a b [] = refl
fill_nil a b (c ∷ text) = refl

fill_one :
    (c : ℕ) (text : Str)
    → c < 2 ^ 15
    → fill 2 [] (c ∷ text) ≡ (ok ((c / 256) ∷ (c % 256) ∷ []), text)
unfolding fill
fill_one c text h = rw (utf16_low c h) (fill_nil (c / 256) (c % 256) text)

read_two :
    (c : ℕ) (text : Str)
    → c < 2 ^ 15
    → read 2 (fresh (c ∷ text)) ≡ (ok ((c / 256) ∷ (c % 256) ∷ []), fresh text)
unfolding read
read_two c text h = ap (λ m. put_back 2 m []) (fill_one c text h)

pub read_short :
    (c : ℕ) (text : Str)
    → c < 2 ^ 15
    → read_value string_reader short (fresh (c ∷ text)) ≡ (ok (pos c), fresh text)
unfolding read_value unpack calcsize standard_size is_signed from_be
read_short c text h =
    let e : c / 256 * 256 + (c % 256 * 1 + 0) ≡ c = omega arith in
    let high : leb 32768 c ≡ false = ground arith in
    bind_ok (read 2) _ (fresh (c ∷ text)) (read_two c text h)
    ∙ rw (e, high) (lift_ok (ok (pos c)) (fresh text) refl)
