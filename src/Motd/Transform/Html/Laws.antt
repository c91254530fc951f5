-- ===== src/Motd/Transform/Html/Laws.antt =====
-- mcstatus/motd/_transformers.py: when the HTML transformer fails.
use mcstatus_rust.Prelude.{
  ◌≡◌, refl, subst, ◌∙◌, Bool, true, false, Option, none, some, List, [], ◌∷◌, ◌++◌,
}
use mcstatus_rust.Prelude.Exec.{Result, ok, err, key_error, next, ◌>>=◌}
use mcstatus_rust.Io.Text.{Str}
use mcstatus_rust.Motd.Components.{
  Component, formatting, color, web, translation, text, MinecraftColor, black, dark_blue,
  dark_green, dark_aqua, dark_red, dark_purple, gold, gray, dark_gray, blue, green, aqua, red,
  light_purple, yellow, white, minecoin_gold, material_quartz, material_iron, material_netherite,
  material_redstone, material_copper, material_gold, material_emerald, material_diamond,
  material_lapis, material_amethyst, material_resin, bold, italic, underlined, strikethrough,
  obfuscated, reset,
}
use mcstatus_rust.Motd.Transform.{join}
use mcstatus_rust.Motd.Colors.{Rgb, bedrock_map}
use mcstatus_rust.Motd.Transform.Html.{
  Html, html_color, html_output, html_results, html_component, html_minecraft_color, html_web_color,
  open_tag, html_formatting, to_html, color_map,
}

abbrev pub known_color : Option (Rgb × Rgb) → Bool → Bool
known_color none rest = false
known_color (some x) rest = rest

-- Whether every Minecraft colour is in the map of the edition.
unfoldable pub all_known : Bool → List Component → Bool
all_known bedrock [] = true
all_known bedrock (color c ∷ cs) = known_color (color_map bedrock c) (all_known bedrock cs)
all_known bedrock (web w ∷ cs) = all_known bedrock cs
all_known bedrock (formatting f ∷ cs) = all_known bedrock cs
all_known bedrock (translation t ∷ cs) = all_known bedrock cs
all_known bedrock (text s ∷ cs) = all_known bedrock cs

-- The outcome that `known` tells of.
abbrev pub Tells : {A : Type 0} → Bool → Result A → Type 0
Tells {A} true r = (a : A) × (r ≡ ok a)
Tells {A} false r = r ≡ err key_error

Tells-next :
    {A B S : Type 0} (known : Bool) (p : Result A × S) (f : A → B)
    → Tells known p.0
    → Tells known (next p (λ a s. (ok (f a), s))).0
Tells-next true (ok a, s) f h = (f a, refl)
Tells-next true (err e, s) f h = absurd cc
Tells-next false (ok a, s) f h = absurd cc
Tells-next false (err e, s) f h = cc

html_color-Tells :
    (o : Option (Rgb × Rgb)) (opened : Str) (known : Bool) (rest : Html (List Str))
    → ((on_reset : List Str) → Tells known (rest on_reset).0)
    → Tells
        (known_color o known)
        (next
          (next (html_color o []) (λ s t. (ok (opened ∷ s ∷ []), t)))
          (λ handled. rest >>= λ more. λ t. (ok (handled ++ more), t))).0
unfolding ◌>>=◌ open_tag
html_color-Tells none opened known rest h = refl
html_color-Tells (some x) opened known rest h = Tells-next known _ _ (h _)

html_results-Tells :
    (b : Bool) (cs : List Component) (on_reset : List Str)
    → Tells (all_known b cs) (html_results b cs on_reset).0
unfolding html_results html_component html_minecraft_color html_web_color open_tag html_formatting
    all_known ◌>>=◌
html_results-Tells b [] on_reset = ([], refl)
html_results-Tells b (text s ∷ cs) on_reset = Tells-next _ _ _ (html_results-Tells b cs on_reset)
html_results-Tells b (translation s ∷ cs) on_reset =
    Tells-next _ _ _ (html_results-Tells b cs on_reset)
html_results-Tells b (web w ∷ cs) on_reset = Tells-next _ _ _ (html_results-Tells b cs _)
html_results-Tells b (formatting reset ∷ cs) on_reset = Tells-next _ _ _ (html_results-Tells b cs _)
html_results-Tells b (formatting bold ∷ cs) on_reset = Tells-next _ _ _ (html_results-Tells b cs _)
html_results-Tells b (formatting italic ∷ cs) on_reset =
    Tells-next _ _ _ (html_results-Tells b cs _)
html_results-Tells b (formatting underlined ∷ cs) on_reset =
    Tells-next _ _ _ (html_results-Tells b cs _)
html_results-Tells b (formatting strikethrough ∷ cs) on_reset =
    Tells-next _ _ _ (html_results-Tells b cs _)
html_results-Tells b (formatting obfuscated ∷ cs) on_reset =
    Tells-next _ _ _ (html_results-Tells b cs _)
html_results-Tells b (color c ∷ cs) on_reset =
    html_color-Tells (color_map b c) (join on_reset) (all_known b cs) (html_results b cs)
      (html_results-Tells b cs)

output-Tells :
    (known : Bool) (p : Result (List Str) × List Str)
    → Tells known p.0
    → Tells known (html_output p)
output-Tells true (ok a, s) h = (_, refl)
output-Tells true (err e, s) h = absurd cc
output-Tells false (ok a, s) h = absurd cc
output-Tells false (err e, s) h = cc

to_html-Tells : (b : Bool) (cs : List Component) → Tells (all_known b cs) (to_html b cs)
unfolding to_html
to_html-Tells b cs = output-Tells _ _ (html_results-Tells b cs [])

bedrock_known : (c : MinecraftColor) (r : Bool) → known_color (color_map true c) r ≡ r
unfolding color_map bedrock_map
bedrock_known black r = refl
bedrock_known dark_blue r = refl
bedrock_known dark_green r = refl
bedrock_known dark_aqua r = refl
bedrock_known dark_red r = refl
bedrock_known dark_purple r = refl
bedrock_known gold r = refl
bedrock_known gray r = refl
bedrock_known dark_gray r = refl
bedrock_known blue r = refl
bedrock_known green r = refl
bedrock_known aqua r = refl
bedrock_known red r = refl
bedrock_known light_purple r = refl
bedrock_known yellow r = refl
bedrock_known white r = refl
bedrock_known minecoin_gold r = refl
bedrock_known material_quartz r = refl
bedrock_known material_iron r = refl
bedrock_known material_netherite r = refl
bedrock_known material_redstone r = refl
bedrock_known material_copper r = refl
bedrock_known material_gold r = refl
bedrock_known material_emerald r = refl
bedrock_known material_diamond r = refl
bedrock_known material_lapis r = refl
bedrock_known material_amethyst r = refl
bedrock_known material_resin r = refl

pub all_known-bedrock : (cs : List Component) → all_known true cs ≡ true
unfolding all_known
all_known-bedrock [] = refl
all_known-bedrock (color c ∷ cs) = bedrock_known c (all_known true cs) ∙ all_known-bedrock cs
all_known-bedrock (web w ∷ cs) = all_known-bedrock cs
all_known-bedrock (formatting f ∷ cs) = all_known-bedrock cs
all_known-bedrock (translation t ∷ cs) = all_known-bedrock cs
all_known-bedrock (text s ∷ cs) = all_known-bedrock cs

-- A message of a Bedrock server always has an HTML form. For a Java server it has one exactly if each
-- of its colours is in the Java map; otherwise there is a `KeyError`.
pub to_html-outcome :
    (cs : List Component)
    → ((s : Str) × (to_html true cs ≡ ok s))
      × (all_known false cs ≡ true → (s : Str) × (to_html false cs ≡ ok s))
      × (all_known false cs ≡ false → to_html false cs ≡ err key_error)
to_html-outcome cs = (
  subst (λ k. Tells k (to_html true cs)) (all_known-bedrock cs) (to_html-Tells true cs),
  λ h. subst (λ k. Tells k (to_html false cs)) h (to_html-Tells false cs),
  λ h. subst (λ k. Tells k (to_html false cs)) h (to_html-Tells false cs),
)
