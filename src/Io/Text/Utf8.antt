-- ===== src/Io/Text/Utf8.antt =====
-- Python's UTF-8 codec: encoding and decoding together.
use mcstatus_rust.Prelude.{
  ℕ, suc, ◌+◌, ◌*◌, ◌/◌, ◌%◌, ◌≤◌, ◌<◌, ◌≡◌, refl, ◌∙◌, true, false, [], ◌∷◌, ◌++◌, All, ◌&&◌, ◌==◌,
  length, length-append, arith, inl, inr, Bool-cases, ltb, leb, lt→ltb, not_ltb,
}
use mcstatus_rust.Prelude.Exec.{ok, err, bind_result-eq-ok, unicode_error}
use mcstatus_rust.Io.Text.{
  Str, Bytes, cons_ok, is_surrogate, utf8_char, utf8_encode, utf8_from, utf8_decode, is_scalar,
  lead_bits, lead_least,
}
use native.Mathlib.Decide.{dec_lt}

-- The code points of a `str` lie below 0x110000.
abbrev pub IsCodePoint : ℕ → Type 0
IsCodePoint c = c < 0x110000

idle : (acc least : ℕ) (bs : Bytes) → utf8_from 0 acc least bs ≡ utf8_from 0 0 0 bs
unfolding utf8_from
idle acc least [] = refl
idle acc least (b ∷ bs) = refl

-- One round of the decoder on each kind of byte.
module _ (b : ℕ) (bs : Bytes) where
  lead_two :
      (acc : ℕ) → b ≡ 0xC0 + acc → acc < 0x20 → utf8_from 0 0 0 (b ∷ bs) ≡ utf8_from 1 acc 0x80 bs
  unfolding utf8_from
  lead_two acc e h = ground arith

  lead_three :
      (acc : ℕ) → b ≡ 0xE0 + acc → acc < 0x10 → utf8_from 0 0 0 (b ∷ bs) ≡ utf8_from 2 acc 0x800 bs
  unfolding utf8_from
  lead_three acc e h = ground arith

  lead_four :
      (acc : ℕ) → b ≡ 0xF0 + acc → acc < 8 → utf8_from 0 0 0 (b ∷ bs) ≡ utf8_from 3 acc 0x10000 bs
  unfolding utf8_from
  lead_four acc e h = ground arith

  is_cont : (d : ℕ) → b ≡ 0x80 + d → d < 64 → (leb 0x80 b && ltb b 0xC0) ≡ true
  is_cont d e h = ground arith

  inner_byte :
      (k acc acc' least d : ℕ)
      → b ≡ 0x80 + d
      → d < 64
      → acc' ≡ acc * 64 + d
      → utf8_from (suc (suc k)) acc least (b ∷ bs) ≡ utf8_from (suc k) acc' least bs
  unfolding utf8_from
  inner_byte k acc acc' least d e h f =
      let low : b % 64 ≡ d = omega arith in
      let more : (suc k == 0) ≡ false = ground arith in rw (is_cont d e h, low, ← f, more)

  final_byte :
      (acc c least d : ℕ)
      → b ≡ 0x80 + d
      → d < 64
      → c ≡ acc * 64 + d
      → is_scalar least c ≡ true
      → utf8_from 1 acc least (b ∷ bs) ≡ cons_ok c (utf8_from 0 0 0 bs)
  unfolding utf8_from
  final_byte acc c least d e h f v = ground (arith, idle c least bs)

module _ (c : ℕ) (bs : Bytes) where
  abbrev Decodes : Type 0
  Decodes = utf8_from 0 0 0 (utf8_char c ++ bs) ≡ cons_ok c (utf8_from 0 0 0 bs)

  one_byte : c < 0x80 → Decodes
  unfolding utf8_from utf8_char
  one_byte h = ground (arith, idle (lead_bits c) (lead_least c) bs)

  two_bytes : 0x80 ≤ c → c < 0x800 → Decodes
  unfolding utf8_char
  two_bytes h k =
      rw (not_ltb c 0x80 h, lt→ltb c 0x800 k)
        (lead_two _ _ (c / 64) refl (omega arith)
          ∙ final_byte _ _ (c / 64) c 0x80 (c % 64) refl (omega arith) (omega arith) (ground arith))

  three_bytes : 0x800 ≤ c → c < 0x10000 → is_surrogate c ≡ false → Decodes
  unfolding utf8_char
  three_bytes h k s =
      rw (not_ltb c 0x80 (omega arith), not_ltb c 0x800 h, lt→ltb c 0x10000 k)
        (lead_three _ _ (c / 4096) refl (omega arith)
          ∙ inner_byte _ _ 0 (c / 4096) (c / 64) 0x800 (c / 64 % 64) refl (omega arith)
              (omega arith)
          ∙ final_byte _ _ (c / 64) c 0x800 (c % 64) refl (omega arith) (omega arith)
              (rw s (ground arith)))

  four_bytes : 0x10000 ≤ c → IsCodePoint c → Decodes
  unfolding utf8_char
  four_bytes h k =
      rw (not_ltb c 0x80 (omega arith), not_ltb c 0x800 (omega arith), not_ltb c 0x10000 h)
        (lead_four _ _ (c / 262144) refl (omega arith)
          ∙ inner_byte _ _ 1 (c / 262144) (c / 4096) 0x10000 (c / 4096 % 64) refl (omega arith)
              (omega arith)
          ∙ inner_byte _ _ 0 (c / 4096) (c / 64) 0x10000 (c / 64 % 64) refl (omega arith)
              (omega arith)
          ∙ final_byte _ _ (c / 64) c 0x10000 (c % 64) refl (omega arith) (omega arith)
              (ground arith))

  utf8_from-char : IsCodePoint c → is_surrogate c ≡ false → Decodes
  utf8_from-char h s = elim (dec_lt c 0x80) [
    | yes p ↦ one_byte p
    | no p ↦ elim (dec_lt c 0x800) [
      | yes q ↦ two_bytes (omega arith) q
      | no q ↦ elim (dec_lt c 0x10000) [
        | yes r ↦ three_bytes (omega arith) r s
        | no r ↦ four_bytes (omega arith) h
      ]
    ]
  ]

-- Decoding what was encoded gives the text back.
pub utf8_decode-encode :
    (s : Str) (bs : Bytes) → All IsCodePoint s → utf8_encode s ≡ ok bs → utf8_decode bs ≡ ok s
unfolding utf8_encode utf8_decode
utf8_decode-encode [] bs h e = ground arith
utf8_decode-encode (c ∷ s) bs (hc, hs) e = elim (Bool-cases (is_surrogate c)) [
  | inl lone ↦ absurd (no_ok (rw lone at e))
  | inr fine ↦
      (let (t, et, eb) = bind_result-eq-ok (utf8_encode s) _ (rw fine at e) in
        cc (eb, utf8_from-char c t hc fine, utf8_decode-encode s t hs et))
]
  where
    no_ok : err unicode_error ≡ ok bs → ⊥
    no_ok x = cc

length-utf8_char : (c : ℕ) → length (utf8_char c) ≤ 4
unfolding utf8_char
length-utf8_char c = ground arith

-- A character takes four bytes at most.
pub length-utf8_encode : (s : Str) (bs : Bytes) → utf8_encode s ≡ ok bs → length bs ≤ 4 * length s
unfolding utf8_encode
length-utf8_encode [] bs e = ground arith
length-utf8_encode (c ∷ s) bs e = elim (Bool-cases (is_surrogate c)) [
  | inl lone ↦ absurd (no_ok (rw lone at e))
  | inr fine ↦
      (let (t, et, eb) = bind_result-eq-ok (utf8_encode s) _ (rw fine at e) in
        ground
          (arith, eb, length-utf8_char c, length-append (utf8_char c) t, length-utf8_encode s t et))
]
  where
    no_ok : err unicode_error ≡ ok bs → ⊥
    no_ok x = cc
