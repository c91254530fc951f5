-- ===== src/Motd/Colors.antt =====
-- mcstatus/motd/_transformers.py: the colour maps.
use mcstatus_rust.Prelude.{ℕ, Option, none, some}
use mcstatus_rust.Motd.Components.{
  MinecraftColor, black, dark_blue, dark_green, dark_aqua, dark_red, dark_purple, gold, gray,
  dark_gray, blue, green, aqua, red, light_purple, yellow, white, minecoin_gold, material_quartz,
  material_iron, material_netherite, material_redstone, material_copper, material_gold,
  material_emerald, material_diamond, material_lapis, material_amethyst, material_resin,
}

pub record Rgb : Type 0 where
  pub red : ℕ
  pub green : ℕ
  pub blue : ℕ

abbrev pub rgb : ℕ → ℕ → ℕ → Rgb
rgb r g b = record { red = r; green = g; blue = b }

-- `_SHARED_MINECRAFT_COLOR_TO_RGB`: foreground and background.
unfoldable pub shared : MinecraftColor → Option (Rgb × Rgb)
shared black = some (rgb 0 0 0, rgb 0 0 0)
shared dark_blue = some (rgb 0 0 170, rgb 0 0 42)
shared dark_green = some (rgb 0 170 0, rgb 0 42 0)
shared dark_aqua = some (rgb 0 170 170, rgb 0 42 42)
shared dark_red = some (rgb 170 0 0, rgb 42 0 0)
shared dark_purple = some (rgb 170 0 170, rgb 42 0 42)
shared gold = some (rgb 255 170 0, rgb 64 42 0)
shared gray = some (rgb 170 170 170, rgb 42 42 42)
shared dark_gray = some (rgb 85 85 85, rgb 21 21 21)
shared blue = some (rgb 85 85 255, rgb 21 21 63)
shared green = some (rgb 85 255 85, rgb 21 63 21)
shared aqua = some (rgb 85 255 255, rgb 21 63 63)
shared red = some (rgb 255 85 85, rgb 63 21 21)
shared light_purple = some (rgb 255 85 255, rgb 63 21 63)
shared yellow = some (rgb 255 255 85, rgb 63 63 21)
shared white = some (rgb 255 255 255, rgb 63 63 63)
shared c = none

-- `_MINECRAFT_COLOR_TO_RGB_JAVA`
unfoldable pub java_map : MinecraftColor → Option (Rgb × Rgb)
unfolding shared
java_map gray = some (rgb 170 170 170, rgb 42 42 42)
java_map c = shared c

-- `_MINECRAFT_COLOR_TO_RGB_BEDROCK`
unfoldable pub bedrock_map : MinecraftColor → Option (Rgb × Rgb)
unfolding shared
bedrock_map gray = some (rgb 198 198 198, rgb 49 49 49)
bedrock_map minecoin_gold = some (rgb 221 214 5, rgb 55 53 1)
bedrock_map material_quartz = some (rgb 227 212 209, rgb 56 53 52)
bedrock_map material_iron = some (rgb 206 202 202, rgb 51 50 50)
bedrock_map material_netherite = some (rgb 68 58 59, rgb 17 14 14)
bedrock_map material_redstone = some (rgb 151 22 7, rgb 37 5 1)
bedrock_map material_copper = some (rgb 180 104 77, rgb 45 26 19)
bedrock_map material_gold = some (rgb 222 177 45, rgb 55 44 11)
bedrock_map material_emerald = some (rgb 17 159 54, rgb 4 40 13)
bedrock_map material_diamond = some (rgb 44 186 168, rgb 11 46 42)
bedrock_map material_lapis = some (rgb 33 73 123, rgb 8 18 30)
bedrock_map material_amethyst = some (rgb 154 92 198, rgb 38 23 49)
bedrock_map material_resin = some (rgb 235 114 20, rgb 59 29 5)
bedrock_map c = shared c
