-- ===== src/Motd/Parse/Laws.antt =====
-- mcstatus/motd/_motd.py: what `_parse_as_str` keeps of a text, and its round trip.
use mcstatus_rust.Prelude.{
  ℕ, ◌≡◌, ◌≢◌, refl, ap, ◌∙◌, sym, Bool, true, false, ◌&&◌, ◌||◌, none, List, [], ◌∷◌, ◌++◌, ◌==◌,
  arith, All, append_assoc, append-nil, Bool-cases, inl, inr,
}
use mcstatus_rust.Io.Text.{Str}
use mcstatus_rust.Motd.Components.{
  Formatting, bold, italic, underlined, strikethrough, obfuscated, reset, MinecraftColor, black,
  dark_blue, dark_green, dark_aqua, dark_red, dark_purple, gold, gray, dark_gray, blue, green, aqua,
  red, light_purple, yellow, white, minecoin_gold, material_quartz, material_iron,
  material_netherite, material_redstone, material_copper, material_gold, material_emerald,
  material_diamond, material_lapis, material_amethyst, material_resin, Component, formatting, color,
  web, translation, text, color_of, formatting_of, formatting_value, color_value,
}
use mcstatus_rust.Motd.Transform.{
  section_sign, join, to_minecraft, transform, minecraft_component, handle_component, handler,
}
use mcstatus_rust.Motd.Parse.{
  is_code, is_mark, split, is_minecoin, is_marked, parse_code, parse_element, parse_elements,
  parse_as_str,
}

-- The pieces of the split text make up the text.
join-split : (before s : Str) → join (split before s) ≡ before ++ s
unfolding join split
join-split before [] = refl
join-split before (a ∷ []) = append-nil (before ++ a ∷ [])
join-split before (a ∷ b ∷ s) = elim (Bool-cases (is_mark a && is_code b)) [
  | inl h ↦ rw h (ap (λ t. before ++ a ∷ b ∷ t) (join-split [] s))
  | inr h ↦ rw h (join-split (before ++ a ∷ []) (b ∷ s) ∙ append_assoc before (a ∷ []) (b ∷ s))
]

abbrev pub IsPlain : Str → Type 0
IsPlain = All (λ a. is_mark a ≡ false)

-- A text without marks is passed over.
split-plain : (before s u : Str) → IsPlain s → split before (s ++ u) ≡ split (before ++ s) u
unfolding split
split-plain before [] u h = ap (λ t. split t u) (sym (append-nil before))
split-plain before (a ∷ []) [] h = refl
split-plain before (a ∷ []) (b ∷ u) h = rw h.0 refl
split-plain before (a ∷ b ∷ s) u h = rw h.0 (
    split-plain (before ++ a ∷ []) (b ∷ s) u h.1
    ∙ ap (λ t. split t u) (append_assoc before (a ∷ []) (b ∷ s)))

-- A component that prints as a code or a text which is read back: a colour whose code the split knows, a
-- formatting of such a code that is no colour's too (those of strikethrough and underlined are), or a
-- non-empty text without marks.
abbrev pub IsPrintable : Component → Type 0
IsPrintable (color c) = is_code (color_value c) ≡ true
IsPrintable (formatting f) =
    (is_code (formatting_value f) ≡ true) × (color_of (formatting_value f) ≡ none)
IsPrintable (text s) = IsPlain s × (s ≢ [])
IsPrintable c = ⊥

-- Printable components, with no two texts next to each other.
abbrev pub IsCanonical : Bool → List Component → Type 0
IsCanonical after_text [] = Unit
IsCanonical after_text (text s ∷ cs) =
    (after_text ≡ false) × IsPrintable (text s) × IsCanonical true cs
IsCanonical after_text (c ∷ cs) = IsPrintable c × IsCanonical false cs

parse_element-color :
    (b : Bool) (c : MinecraftColor)
    → is_code (color_value c) ≡ true
    → parse_element b (section_sign ∷ color_value c ∷ []) ≡ color c ∷ []
unfolding parse_element color_value is_code parse_code color_of is_minecoin
parse_element-color b black h = refl
parse_element-color b dark_blue h = refl
parse_element-color b dark_green h = refl
parse_element-color b dark_aqua h = refl
parse_element-color b dark_red h = refl
parse_element-color b dark_purple h = refl
parse_element-color b gold h = refl
parse_element-color b gray h = refl
parse_element-color b dark_gray h = refl
parse_element-color b blue h = refl
parse_element-color b green h = refl
parse_element-color b aqua h = refl
parse_element-color b red h = refl
parse_element-color b light_purple h = refl
parse_element-color b yellow h = refl
parse_element-color b white h = refl
parse_element-color b minecoin_gold h = cc
parse_element-color b material_quartz h = cc
parse_element-color b material_iron h = cc
parse_element-color b material_netherite h = cc
parse_element-color b material_redstone h = refl
parse_element-color b material_copper h = refl
parse_element-color b material_gold h = cc
parse_element-color b material_emerald h = cc
parse_element-color b material_diamond h = cc
parse_element-color b material_lapis h = cc
parse_element-color b material_amethyst h = cc
parse_element-color b material_resin h = cc

parse_element-formatting :
    (b : Bool) (f : Formatting)
    → color_of (formatting_value f) ≡ none
    → parse_element b (section_sign ∷ formatting_value f ∷ []) ≡ formatting f ∷ []
unfolding parse_element formatting_value is_code parse_code color_of formatting_of is_minecoin
parse_element-formatting b bold k = refl
parse_element-formatting b italic k = refl
parse_element-formatting b obfuscated k = refl
parse_element-formatting b reset k = refl
parse_element-formatting b strikethrough k = cc
parse_element-formatting b underlined k = cc

-- What is pending when the split meets a printed component.
abbrev pending : Str → List Component
pending [] = []
pending (c ∷ s) = text (c ∷ s) ∷ []

not_marked : (c : ℕ) (s : Str) → is_mark c ≡ false → is_marked (c ∷ s) ≡ false
unfolding is_marked is_mark
not_marked c s h = ground arith

not_minecoin : (c : ℕ) (s : Str) → is_mark c ≡ false → is_minecoin (c ∷ s) ≡ false
unfolding is_minecoin is_mark
not_minecoin c [] h = refl
not_minecoin c (d ∷ []) h =
    let e : (c == section_sign || c == b'&') ≡ false = ground arith in rw e refl
not_minecoin c (d ∷ e ∷ s) h = refl

parse_element-plain : (b : Bool) (s : Str) → IsPlain s → parse_element b s ≡ pending s
unfolding parse_element
parse_element-plain b [] h = refl
parse_element-plain b (c ∷ s) h = rw (not_minecoin c s h.0, not_marked c s h.0) refl

parse-split-code :
    (b : Bool) (before u : Str) (v : ℕ) (c : Component)
    → IsPlain before
    → is_code v ≡ true
    → parse_element b (section_sign ∷ v ∷ []) ≡ c ∷ []
    → parse_elements b (split before (section_sign ∷ v ∷ u))
      ≡ pending before ++ c ∷ parse_elements b (split [] u)
unfolding split parse_elements is_mark
parse-split-code b before u v c h k e = rw (k, parse_element-plain b before h, e) refl

abbrev nonempty : Str → Bool
nonempty [] = false
nonempty (c ∷ s) = true

-- A printed component in front of the rest.
parse-printed :
    (b : Bool) (before : Str) (cs : List Component)
    → IsPlain before
    → IsCanonical (nonempty before) cs
    → parse_elements b (split before (to_minecraft cs)) ≡ pending before ++ cs
unfolding to_minecraft transform minecraft_component handle_component handler join parse_elements
    split
parse-printed b before [] h k = rw (parse_element-plain b before h) refl
parse-printed b before (color c ∷ cs) h k =
    parse-split-code b before (to_minecraft cs) (color_value c) (color c) h k.0
      (parse_element-color b c k.0)
    ∙ ap (λ t. pending before ++ color c ∷ t) (parse-printed b [] cs tt k.1)
parse-printed b before (formatting f ∷ cs) h k =
    parse-split-code b before (to_minecraft cs) (formatting_value f) (formatting f) h k.0.0
      (parse_element-formatting b f k.0.1)
    ∙ ap (λ t. pending before ++ formatting f ∷ t) (parse-printed b [] cs tt k.1)
parse-printed b before (web w ∷ cs) h k = absurd k.0
parse-printed b before (translation t ∷ cs) h k = absurd k.0
parse-printed b (c ∷ before) (text s ∷ cs) h k = absurd cc
parse-printed b [] (text [] ∷ cs) h k = absurd (k.1.1 refl)
parse-printed b [] (text (c ∷ s) ∷ cs) h k =
    ap (λ t. parse_elements b (split [] (c ∷ t ++ to_minecraft cs))) (append-nil s)
    ∙ ap (parse_elements b) (split-plain [] (c ∷ s) (to_minecraft cs) k.1.0)
    ∙ parse-printed b (c ∷ s) cs k.1.0 k.2

-- Colours of the codes 0 to 9, a to f, m and n, the formattings bold, italic, obfuscated and reset, and
-- non-empty texts without the marks §, & and |, with no two texts next to each other, are parsed back
-- from their Minecraft text on both editions.
pub parse_as_str-to_minecraft :
    (bedrock : Bool) (cs : List Component)
    → IsCanonical false cs
    → parse_as_str bedrock (to_minecraft cs) ≡ cs
unfolding parse_as_str
parse_as_str-to_minecraft bedrock cs h = parse-printed bedrock [] cs tt h
