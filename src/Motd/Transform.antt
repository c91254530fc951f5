-- ===== src/Motd/Transform.antt =====
-- mcstatus/motd/_transformers.py: `_BaseTransformer` over the handlers of its subclasses, and the
-- plain and Minecraft transformers.
pub mod Html
use mcstatus_rust.Prelude.{
  ℕ, zero, suc, ◌+◌, ◌-◌, ◌*◌, ◌/◌, ◌%◌, String, Bool, true, false, List, [], ◌∷◌, ◌++◌, codes, ltb,
  ◌==◌, if◌then◌else◌, Option, none, some,
}
use mcstatus_rust.Io.Text.{Str}
use mcstatus_rust.Motd.Components.{
  Formatting, bold, italic, underlined, strikethrough, obfuscated, reset, MinecraftColor, WebColor,
  Component, formatting, color, web, translation, text, formatting_value, color_value,
}

-- The `_handle_*` methods of a subclass.
pub record Handlers : Type 0 where
  pub handle_str : Str → Str
  pub handle_translation_tag : Str → Str
  pub handle_web_color : WebColor → Str
  pub handle_formatting : Formatting → Str
  pub handle_minecraft_color : MinecraftColor → Str

unfoldable pub handler : Handlers → Component → Str
handler h (color c) = h.handle_minecraft_color c
handler h (web w) = h.handle_web_color w
handler h (formatting f) = h.handle_formatting f
handler h (translation t) = h.handle_translation_tag t
handler h (text s) = h.handle_str s

-- A Minecraft colour is preceded by a reset.
unfoldable pub handle_component : Handlers → Component → List Str
unfolding handler
handle_component h (color c) = h.handle_formatting reset ∷ handler h (color c) ∷ []
handle_component h c = handler h c ∷ []

unfoldable pub join : List Str → Str
join [] = []
join (s ∷ ss) = s ++ join ss

-- `"".join` of the results of `transform`.
unfoldable pub transform : (Component → List Str) → List Component → Str
unfolding join
transform handle [] = []
transform handle (c ∷ cs) = join (handle c) ++ transform handle cs

-- `_NothingTransformer`
abbrev pub nothing : Handlers
nothing = record {
  handle_str = λ s. [];
  handle_translation_tag = λ t. [];
  handle_web_color = λ w. [];
  handle_formatting = λ f. [];
  handle_minecraft_color = λ c. [];
}

-- `PlainTransformer`
abbrev pub plain : Handlers
plain = record nothing { handle_str = λ s. s }

unfoldable pub to_plain : List Component → Str
unfolding transform handle_component
to_plain parsed = transform (handle_component plain) parsed

-- The section sign.
abbrev pub section_sign : ℕ
section_sign = 0xA7

-- `MinecraftTransformer`
abbrev pub minecraft : Handlers
minecraft = record plain {
  handle_formatting = λ f. section_sign ∷ formatting_value f ∷ [];
  handle_minecraft_color = λ c. section_sign ∷ color_value c ∷ [];
}

-- It keeps the second of two results.
unfoldable pub minecraft_component : Component → List Str
minecraft_component c = elim (handle_component minecraft c) [
  | [] ↦ []
  | a ∷ r ↦ elim r [ [] ↦ a ∷ [] | b ∷ t ↦ b ∷ [] ]
]

unfoldable pub to_minecraft : List Component → Str
unfolding transform minecraft_component handle_component formatting_value color_value
to_minecraft parsed = transform minecraft_component parsed

-- `str` of a number, with as many rounds as it may have digits less one.
unfoldable pub digits : ℕ → ℕ → Str
digits zero n = (b'0' + n % 10) ∷ []
digits (suc k) n =
    let more = digits k (n / 10) in
    if ltb n 10 then (b'0' + n) ∷ [] else more ++ (b'0' + n % 10) ∷ []

-- A number below 1000.
unfoldable pub str3 : ℕ → Str
unfolding digits
str3 n = digits 2 n
