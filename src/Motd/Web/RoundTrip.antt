-- ===== src/Motd/Web/RoundTrip.antt =====
-- mcstatus/motd/components.py: the text of a web colour.
use mcstatus_rust.Prelude.{
  ℕ, ◌+◌, ◌*◌, ◌/◌, ◌%◌, ◌<◌, ◌≤◌, ◌≡◌, refl, ap, true, false, Option, some, ◌∷◌, ◌++◌, leb, ◌==◌,
  arith, length,
}
use mcstatus_rust.Prelude.Int.{pos}
use mcstatus_rust.Prelude.Exec.{ok}
use mcstatus_rust.Motd.Simplify.{is_space}
use mcstatus_rust.Motd.Components.{WebColor}
use mcstatus_rust.Motd.Web.{
  hex_digit, hex_char, hex2, check_channel, from_rgb, digit16, int16, channels, expand_hex, lstrip,
  from_hex,
}

hex_digit-hex_char : (d : ℕ) → d < 16 → hex_digit (hex_char d) ≡ some d
unfolding hex_digit hex_char
hex_digit-hex_char d h = ground arith

is_space_visible : (c : ℕ) → 0x21 ≤ c → c < 0x7F → is_space c ≡ false
unfolding is_space
is_space_visible c h k = ground arith

hex_char_bounds : (d : ℕ) → d < 16 → (48 ≤ hex_char d) × (hex_char d < 103)
unfolding hex_char
hex_char_bounds d h = ground arith

-- A digit in base 16 is none of the characters that `int` treats in another way.
hex_char_plain :
    (c : ℕ)
    → 48 ≤ c
    → c < 103
    → (is_space c ≡ false) × ((c == b'+') ≡ false) × ((c == b'-') ≡ false) × ((c == b'#') ≡ false)
hex_char_plain c h k =
    (is_space_visible c (omega arith) (omega arith), ground arith, ground arith, ground arith)

module _ (decimal : ℕ → Option ℕ) where
  digit16-hex_char : (d : ℕ) → d < 16 → digit16 decimal (hex_char d) ≡ some d
  unfolding digit16
  digit16-hex_char d h = rw (hex_digit-hex_char d h) refl

  int16-hex2 :
      (n : ℕ) → n < 256 → int16 decimal (hex_char (n / 16)) (hex_char (n % 16)) ≡ ok (pos n)
  unfolding int16
  int16-hex2 n h =
      let a : n / 16 < 16 = omega arith in
      let b : n % 16 < 16 = omega arith in
      let (a1, a2) = hex_char_bounds (n / 16) a in
      let (b1, b2) = hex_char_bounds (n % 16) b in
      let (s, plus, minus, x) = hex_char_plain (hex_char (n / 16)) a1 a2 in
      let (t, y, z, w) = hex_char_plain (hex_char (n % 16)) b1 b2 in
      let e : n / 16 * 16 + n % 16 ≡ n = omega arith in
      rw (s, plus, minus, t, digit16-hex_char (n / 16) a, digit16-hex_char (n % 16) b)
        (ap (λ (k : ℕ). ok (pos k)) e)

  -- The colour of three channels of 8 bits is written with a hash and two digits for each channel,
  -- and `from_hex` reads the same colour back.
  pub from_hex-from_rgb :
      (r g b : ℕ)
      → r < 256
      → g < 256
      → b < 256
      → (w : WebColor) × (from_rgb (pos r) (pos g) (pos b) ≡ ok w)
        × (from_hex decimal w.hex ≡ ok w)
        × (length w.hex ≡ 7)
  unfolding from_rgb check_channel hex2 from_hex lstrip expand_hex channels
  from_hex-from_rgb r g b hr hg hb =
      let lr : leb r 255 ≡ true = ground arith in
      let lg : leb g 255 ≡ true = ground arith in
      let lb : leb b 255 ≡ true = ground arith in
      let made : from_rgb (pos r) (pos g) (pos b)
          ≡ ok (record { hex = b'#' ∷ hex2 r ++ hex2 g ++ hex2 b; red = r; green = g; blue = b }) =
        rw (lr, lg, lb) refl in
      let a : r / 16 < 16 = omega arith in
      let (a1, a2) = hex_char_bounds (r / 16) a in
      let (s, plus, minus, hash) = hex_char_plain (hex_char (r / 16)) a1 a2 in
      (_, made, rw (hash, int16-hex2 r hr, int16-hex2 g hg, int16-hex2 b hb, lr, lg, lb) refl, refl)
