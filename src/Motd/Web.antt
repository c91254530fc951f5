-- ===== src/Motd/Web.antt =====
-- mcstatus/motd/components.py: the class methods of `WebColor`, and `MinecraftColor[name]`.
pub mod RoundTrip
use mcstatus_rust.Prelude.{
  ℕ, zero, suc, ◌+◌, ◌-◌, ◌*◌, ◌/◌, ◌%◌, Bool, true, false, ◌&&◌, ◌||◌, Option, none, some, List,
  [], ◌∷◌, ◌++◌, codes, ltb, leb, ◌==◌, ◌=s=◌, if◌then◌else◌,
}
use mcstatus_rust.Prelude.Int.{ℤ, pos, negsuc}
use mcstatus_rust.Prelude.Exec.{Result, ok, err, value_error, bind_result}
use mcstatus_rust.Io.Text.{Str}
use mcstatus_rust.Motd.Simplify.{is_space}
use mcstatus_rust.Motd.Components.{
  WebColor, MinecraftColor, black, dark_blue, dark_green, dark_aqua, dark_red, dark_purple, gold,
  gray, dark_gray, blue, green, aqua, red, light_purple, yellow, white, minecoin_gold,
  material_quartz, material_iron, material_netherite, material_redstone, material_copper,
  material_gold, material_emerald, material_diamond, material_lapis, material_amethyst,
  material_resin,
}

-- The members of `MinecraftColor` by name.
abbrev pub color_names : List (Str × MinecraftColor)
color_names =
    (codes "BLACK", black)
    ∷ (codes "DARK_BLUE", dark_blue)
    ∷ (codes "DARK_GREEN", dark_green)
    ∷ (codes "DARK_AQUA", dark_aqua)
    ∷ (codes "DARK_RED", dark_red)
    ∷ (codes "DARK_PURPLE", dark_purple)
    ∷ (codes "GOLD", gold)
    ∷ (codes "GRAY", gray)
    ∷ (codes "DARK_GRAY", dark_gray)
    ∷ (codes "BLUE", blue)
    ∷ (codes "GREEN", green)
    ∷ (codes "AQUA", aqua)
    ∷ (codes "RED", red)
    ∷ (codes "LIGHT_PURPLE", light_purple)
    ∷ (codes "YELLOW", yellow)
    ∷ (codes "WHITE", white)
    ∷ (codes "MINECOIN_GOLD", minecoin_gold)
    ∷ (codes "MATERIAL_QUARTZ", material_quartz)
    ∷ (codes "MATERIAL_IRON", material_iron)
    ∷ (codes "MATERIAL_NETHERITE", material_netherite)
    ∷ (codes "MATERIAL_REDSTONE", material_redstone)
    ∷ (codes "MATERIAL_COPPER", material_copper)
    ∷ (codes "MATERIAL_GOLD", material_gold)
    ∷ (codes "MATERIAL_EMERALD", material_emerald)
    ∷ (codes "MATERIAL_DIAMOND", material_diamond)
    ∷ (codes "MATERIAL_LAPIS", material_lapis)
    ∷ (codes "MATERIAL_AMETHYST", material_amethyst)
    ∷ (codes "MATERIAL_RESIN", material_resin)
    ∷ []

unfoldable pub lookup : {A : Type 0} → List (Str × A) → Str → Option A
lookup [] key = none
lookup ((k, a) ∷ rest) key = let more = lookup rest key in if k =s= key then some a else more

-- `str.upper`, as far as it leads to the letters of a name: besides the small letters there are the
-- dotless i, the long s and two ligatures of s and t.
unfoldable pub upper_char : ℕ → Str
upper_char c =
    if leb b'a' c && leb c b'z'
    then (c - 32) ∷ []
    else if c == 0x131
    then b'I' ∷ []
    else if c == 0x17F
    then b'S' ∷ []
    else if c == 0xFB05 || c == 0xFB06
    then b'S' ∷ b'T' ∷ []
    else c ∷ []

unfoldable pub upper : Str → Str
unfolding upper_char
upper [] = []
upper (c ∷ s) = upper_char c ++ upper s

-- `MinecraftColor[color.upper()]`, `none` for the `KeyError`
unfoldable pub color_named : Str → Option MinecraftColor
unfolding lookup upper
color_named color = lookup color_names (upper color)

-- `str.lstrip` with the characters that `drops` picks
unfoldable pub lstrip : (ℕ → Bool) → Str → Str
lstrip drops [] = []
lstrip drops (c ∷ s) = let more = lstrip drops s in if drops c then more else c ∷ s

-- A digit in base 16 that is written in ASCII.
unfoldable pub hex_digit : ℕ → Option ℕ
hex_digit c =
    if leb b'0' c && leb c b'9'
    then some (c - b'0')
    else if leb b'a' c && leb c b'f'
    then some (c - b'a' + 10)
    else if leb b'A' c && leb c b'F'
    then some (c - b'A' + 10)
    else none

-- `'{:02x}'.format(n)` of a number below 256
unfoldable pub hex_char : ℕ → ℕ
hex_char d = if ltb d 10 then b'0' + d else b'a' + (d - 10)

unfoldable pub hex2 : ℕ → Str
unfolding hex_char
hex2 n = hex_char (n / 16) ∷ hex_char (n % 16) ∷ []

-- One channel of `_check_rgb`
unfoldable pub check_channel : ℤ → Result ℕ
check_channel (negsuc n) = err value_error
check_channel (pos n) = if leb n 255 then ok n else err value_error

-- `WebColor.from_rgb`
unfoldable pub from_rgb : ℤ → ℤ → ℤ → Result WebColor
unfolding hex2 check_channel
from_rgb r g b = bind_result (check_channel r) (λ red. bind_result (check_channel g) (λ green.
    bind_result (check_channel b) (λ blue. ok (record {
      hex = b'#' ∷ hex2 red ++ hex2 green ++ hex2 blue;
      red = red;
      green = green;
      blue = blue;
    }))))

unfoldable pub signed : Bool → ℕ → ℤ
signed false n = pos n
signed true zero = pos 0
signed true (suc n) = negsuc n

-- `"{0}{0}{1}{1}{2}{2}".format(*hex)` of three characters; six stay, and other lengths fail.
unfoldable pub expand_hex : Str → Option Str
expand_hex (a ∷ b ∷ c ∷ []) = some (a ∷ a ∷ b ∷ b ∷ c ∷ c ∷ [])
expand_hex (a ∷ b ∷ c ∷ d ∷ e ∷ f ∷ []) = some (a ∷ b ∷ c ∷ d ∷ e ∷ f ∷ [])
expand_hex hex = none

abbrev pub first_of : Option ℕ → Option ℕ → Option ℕ
first_of (some d) o = some d
first_of none o = o

-- `decimal c` is the value of a character that Unicode lists as a decimal digit, and is not ASCII.
module _ (decimal : ℕ → Option ℕ) where
  unfoldable pub digit16 : ℕ → Option ℕ
  unfolding hex_digit
  digit16 c = first_of (hex_digit c) (decimal c)

  abbrev pub one_digit : Bool → Option ℕ → Result ℤ
  one_digit negative none = err value_error
  one_digit negative (some d) = ok (signed negative d)

  abbrev pub two_digits : Option ℕ → Option ℕ → Result ℤ
  two_digits (some d) (some e) = ok (pos (d * 16 + e))
  two_digits d none = err value_error
  two_digits none (some e) = err value_error

  -- `int(text, 16)` of two characters: the second alone counts behind a space or a sign, and the
  -- first before a space.
  unfoldable pub int16 : ℕ → ℕ → Result ℤ
  unfolding digit16 signed is_space
  int16 a b =
      if is_space a || a == b'+'
      then one_digit false (digit16 b)
      else if a == b'-'
      then one_digit true (digit16 b)
      else if is_space b
      then one_digit false (digit16 a)
      else two_digits (digit16 a) (digit16 b)

  unfoldable pub channels : Str → Result WebColor
  unfolding int16 from_rgb
  channels (a ∷ b ∷ c ∷ d ∷ e ∷ f ∷ []) =
      bind_result (int16 a b)
        (λ r. bind_result (int16 c d) (λ g. bind_result (int16 e f) (λ x. from_rgb r g x)))
  channels hex = err value_error

  abbrev pub expanded : Option Str → Result WebColor
  expanded none = err value_error
  expanded (some hex) = channels hex

  -- `WebColor.from_hex`
  unfoldable pub from_hex : Str → Result WebColor
  unfolding channels expand_hex lstrip
  from_hex hex = expanded (expand_hex (lstrip (λ c. c == b'#') hex))
