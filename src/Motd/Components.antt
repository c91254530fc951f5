-- ===== src/Motd/Components.antt =====
-- mcstatus/motd/components.py: the parts of a parsed message.
use mcstatus_rust.Prelude.{
  ℕ, Bool, true, false, ◌&&◌, Option, none, some, ◌==◌, ◌=s=◌, if◌then◌else◌,
}
use mcstatus_rust.Io.Text.{Str}

pub data Formatting : Type 0 where
  bold italic underlined strikethrough obfuscated reset : Formatting

pub data MinecraftColor : Type 0 where
  black dark_blue dark_green dark_aqua : MinecraftColor
  dark_red dark_purple gold gray : MinecraftColor
  dark_gray blue green aqua : MinecraftColor
  red light_purple yellow white : MinecraftColor
  minecoin_gold material_quartz material_iron material_netherite : MinecraftColor
  material_redstone material_copper material_gold material_emerald : MinecraftColor
  material_diamond material_lapis material_amethyst material_resin : MinecraftColor

-- The values of the two enumerations are texts of one character. Within one enumeration they
-- differ, so members are equal exactly if their values are.
unfoldable pub formatting_value : Formatting → ℕ
formatting_value bold = b'l'
formatting_value italic = b'o'
formatting_value underlined = b'n'
formatting_value strikethrough = b'm'
formatting_value obfuscated = b'k'
formatting_value reset = b'r'

unfoldable pub color_value : MinecraftColor → ℕ
color_value black = b'0'
color_value dark_blue = b'1'
color_value dark_green = b'2'
color_value dark_aqua = b'3'
color_value dark_red = b'4'
color_value dark_purple = b'5'
color_value gold = b'6'
color_value gray = b'7'
color_value dark_gray = b'8'
color_value blue = b'9'
color_value green = b'a'
color_value aqua = b'b'
color_value red = b'c'
color_value light_purple = b'd'
color_value yellow = b'e'
color_value white = b'f'
color_value minecoin_gold = b'g'
color_value material_quartz = b'h'
color_value material_iron = b'i'
color_value material_netherite = b'j'
color_value material_redstone = b'm'
color_value material_copper = b'n'
color_value material_gold = b'p'
color_value material_emerald = b'q'
color_value material_diamond = b's'
color_value material_lapis = b't'
color_value material_amethyst = b'u'
color_value material_resin = b'v'

-- `Formatting(c)`: the member with that value, `none` for the `ValueError`.
unfoldable pub formatting_of : ℕ → Option Formatting
formatting_of c =
    if c == b'l'
    then some bold
    else if c == b'o'
    then some italic
    else if c == b'n'
    then some underlined
    else if c == b'm'
    then some strikethrough
    else if c == b'k'
    then some obfuscated
    else if c == b'r'
    then some reset
    else none

-- `MinecraftColor(c)`
unfoldable pub color_of : ℕ → Option MinecraftColor
color_of c =
    if c == b'0'
    then some black
    else if c == b'1'
    then some dark_blue
    else if c == b'2'
    then some dark_green
    else if c == b'3'
    then some dark_aqua
    else if c == b'4'
    then some dark_red
    else if c == b'5'
    then some dark_purple
    else if c == b'6'
    then some gold
    else if c == b'7'
    then some gray
    else if c == b'8'
    then some dark_gray
    else if c == b'9'
    then some blue
    else if c == b'a'
    then some green
    else if c == b'b'
    then some aqua
    else if c == b'c'
    then some red
    else if c == b'd'
    then some light_purple
    else if c == b'e'
    then some yellow
    else if c == b'f'
    then some white
    else if c == b'g'
    then some minecoin_gold
    else if c == b'h'
    then some material_quartz
    else if c == b'i'
    then some material_iron
    else if c == b'j'
    then some material_netherite
    else if c == b'm'
    then some material_redstone
    else if c == b'n'
    then some material_copper
    else if c == b'p'
    then some material_gold
    else if c == b'q'
    then some material_emerald
    else if c == b's'
    then some material_diamond
    else if c == b't'
    then some material_lapis
    else if c == b'u'
    then some material_amethyst
    else if c == b'v'
    then some material_resin
    else none

pub record WebColor : Type 0 where
  pub hex : Str
  pub red : ℕ
  pub green : ℕ
  pub blue : ℕ

-- A parsed component: `Formatting | MinecraftColor | WebColor | TranslationTag | str`.
pub data Component : Type 0 where
  formatting : Formatting → Component
  color : MinecraftColor → Component
  web : WebColor → Component
  translation : Str → Component
  text : Str → Component

-- `==` of the components
unfoldable pub same : Component → Component → Bool
unfolding formatting_value color_value
same (formatting a) (formatting b) = formatting_value a == formatting_value b
same (color a) (color b) = color_value a == color_value b
same (web a) (web b) =
    a.hex =s= b.hex && (a.red == b.red && (a.green == b.green && a.blue == b.blue))
same (translation a) (translation b) = a =s= b
same (text a) (text b) = a =s= b
same (formatting a) b = false
same (color a) b = false
same (web a) b = false
same (translation a) b = false
same (text a) b = false

unfoldable pub is_color : Component → Bool
is_color (color c) = true
is_color (web w) = true
is_color c = false

unfoldable pub is_formatting : Component → Bool
is_formatting (formatting f) = true
is_formatting c = false

unfoldable pub is_text : Component → Bool
is_text (text s) = true
is_text c = false
