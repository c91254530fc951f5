-- ===== src/Motd/Transform/Html.antt =====
-- mcstatus/motd/_transformers.py: `HtmlTransformer` and `AnsiTransformer`.
pub mod Laws
pub mod Ansi
use mcstatus_rust.Prelude.{
  ℕ, ◌==◌, String, Bool, true, false, Option, none, some, List, [], ◌∷◌, ◌++◌, codes, if◌then◌else◌,
}
use mcstatus_rust.Prelude.Exec.{
  Exec, Result, ok, err, key_error, pure, raise, ◌>>=◌, ◌>>◌, bind_result,
}
use mcstatus_rust.Io.Text.{Str}
use mcstatus_rust.Motd.Components.{
  Formatting, bold, italic, underlined, strikethrough, obfuscated, reset, MinecraftColor, WebColor,
  Component, formatting, color, web, translation, text,
}
use mcstatus_rust.Motd.Colors.{Rgb, rgb, java_map, bedrock_map}
use mcstatus_rust.Motd.Transform.{join, str3}

-- `color_map[element]` of the transformer's edition.
unfoldable pub color_map : Bool → MinecraftColor → Option (Rgb × Rgb)
unfolding java_map bedrock_map
color_map true c = bedrock_map c
color_map false c = java_map c

-- `str` of a tuple of three numbers.
unfoldable pub tuple : Rgb → Str
unfolding str3
tuple c =
    codes "(" ++ str3 c.red ++ codes ", " ++ str3 c.green ++ codes ", " ++ str3 c.blue ++ codes ")"

-- The methods of `HtmlTransformer` over `on_reset`.
abbrev pub Html : Type 0 → Type 0
Html A = Exec (List Str) A

-- `self.on_reset.append(tag)`, and the tag that opens.
unfoldable pub open_tag : Str → Str → Html Str
open_tag closer opener on_reset = (ok opener, on_reset ++ closer ∷ [])

unfoldable pub newlines : Str → Str
newlines [] = []
newlines (c ∷ s) = let more = newlines s in if c == 10 then codes "<br>" ++ more else c ∷ more

abbrev pub html_color : Option (Rgb × Rgb) → Html Str
html_color none = raise key_error
html_color (some (fg, bg)) = open_tag (codes "</span>") (
    codes "<span style='color:rgb"
    ++ tuple fg
    ++ codes ";text-shadow:0 0 1px rgb"
    ++ tuple bg
    ++ codes "'>")

-- `HtmlTransformer._handle_minecraft_color`
unfoldable pub html_minecraft_color : Bool → MinecraftColor → Html Str
unfolding color_map open_tag tuple
html_minecraft_color bedrock element = html_color (color_map bedrock element)

-- `HtmlTransformer._handle_web_color`
unfoldable pub html_web_color : WebColor → Html Str
unfolding open_tag tuple
html_web_color element = open_tag (codes "</span>") (
    codes "<span style='color:rgb"
    ++ tuple (rgb element.red element.green element.blue)
    ++ codes "'>")

-- `HtmlTransformer._handle_formatting`
unfoldable pub html_formatting : Formatting → Html Str
unfolding open_tag join
html_formatting reset = λ on_reset. (ok (join on_reset), [])
html_formatting obfuscated = open_tag (codes "</span>") (codes "<span class=obfuscated>")
html_formatting bold = open_tag (codes "</b>") (codes "<b>")
html_formatting strikethrough = open_tag (codes "</s>") (codes "<s>")
html_formatting italic = open_tag (codes "</i>") (codes "<i>")
html_formatting underlined = open_tag (codes "</u>") (codes "<u>")

-- `_handle_component` of the HTML transformer.
unfoldable pub html_component : Bool → Component → Html (List Str)
unfolding html_minecraft_color html_web_color html_formatting newlines
html_component bedrock (color c) = do
  additional ← html_formatting reset
  main ← html_minecraft_color bedrock c
  pure (additional ∷ main ∷ [])
html_component bedrock (web w) = do s ← html_web_color w; pure (s ∷ [])
html_component bedrock (formatting f) = do s ← html_formatting f; pure (s ∷ [])
html_component bedrock (translation t) = pure ([] ∷ [])
html_component bedrock (text s) = pure (newlines s ∷ [])

unfoldable pub html_results : Bool → List Component → Html (List Str)
unfolding html_component
html_results bedrock [] = pure []
html_results bedrock (c ∷ cs) = do
  handled ← html_component bedrock c
  rest ← html_results bedrock cs
  pure (handled ++ rest)

-- `_format_output`
abbrev pub html_output : Result (List Str) × List Str → Result Str
html_output (err e, on_reset) = err e
html_output (ok results, on_reset) =
    ok (codes "<p>" ++ join results ++ join on_reset ++ codes "</p>")

-- `HtmlTransformer.transform`
unfoldable pub to_html : Bool → List Component → Result Str
unfolding html_results join
to_html bedrock parsed = html_output (html_results bedrock parsed [])

-- The escape character, number 27.
abbrev pub escape : Str
escape = 27 ∷ []

-- `"\033[38;2;{};{};{}m".format(*color)`
unfoldable pub ansi_rgb : Rgb → Str
unfolding str3
ansi_rgb c =
    escape
    ++ codes "[38;2;"
    ++ str3 c.red
    ++ codes ";"
    ++ str3 c.green
    ++ codes ";"
    ++ str3 c.blue
    ++ codes "m"

abbrev pub ansi_found : Option (Rgb × Rgb) → Result Str
ansi_found none = err key_error
ansi_found (some (foreground, background)) = ok (ansi_rgb foreground)

-- `ansi_color` of a Minecraft colour
unfoldable pub ansi_color : Bool → MinecraftColor → Result Str
unfolding color_map ansi_rgb
ansi_color bedrock c = ansi_found (color_map bedrock c)

-- `AnsiTransformer._handle_formatting`
unfoldable pub ansi_formatting : Formatting → Str
ansi_formatting reset = escape ++ codes "[0m"
ansi_formatting bold = escape ++ codes "[1m"
ansi_formatting strikethrough = escape ++ codes "[9m"
ansi_formatting italic = escape ++ codes "[3m"
ansi_formatting underlined = escape ++ codes "[4m"
ansi_formatting obfuscated = escape ++ codes "[5m"

unfoldable pub ansi_component : Bool → Component → Result (List Str)
unfolding ansi_formatting ansi_color ansi_rgb
ansi_component bedrock (color c) =
    bind_result (ansi_color bedrock c) (λ s. ok (ansi_formatting reset ∷ s ∷ []))
ansi_component bedrock (web w) = ok (ansi_rgb (rgb w.red w.green w.blue) ∷ [])
ansi_component bedrock (formatting f) = ok (ansi_formatting f ∷ [])
ansi_component bedrock (translation t) = ok ([] ∷ [])
ansi_component bedrock (text s) = ok (s ∷ [])

unfoldable pub ansi_results : Bool → List Component → Result (List Str)
unfolding ansi_component
ansi_results bedrock [] = ok []
ansi_results bedrock (c ∷ cs) =
    bind_result (ansi_component bedrock c)
      (λ handled. bind_result (ansi_results bedrock cs) (λ rest. ok (handled ++ rest)))

-- `AnsiTransformer.transform`
unfoldable pub to_ansi : Bool → List Component → Result Str
unfolding ansi_results join ansi_formatting
to_ansi bedrock parsed =
    bind_result (ansi_results bedrock parsed)
      (λ results. ok (ansi_formatting reset ++ join results ++ ansi_formatting reset))
