-- ===== src/Motd/Parse.antt =====
-- mcstatus/motd/_motd.py: `Motd.parse` and the functions behind it.
pub mod Laws
pub mod Codes
use mcstatus_rust.Prelude.{
  ℕ, ◌+◌, ◌-◌, Bool, true, false, not, ◌&&◌, ◌||◌, Option, none, some, List, [], ◌∷◌, ◌++◌, codes,
  leb, ◌==◌, ◌=s=◌, if◌then◌else◌,
}
use mcstatus_rust.Prelude.Exec.{Result, ok, err, bind_result}
use mcstatus_rust.Io.Text.{Str}
use mcstatus_rust.Motd.Components.{
  Formatting, bold, italic, underlined, strikethrough, obfuscated, reset, MinecraftColor, Component,
  formatting, color, web, translation, text, color_of, formatting_of, formatting_value,
}
use mcstatus_rust.Motd.Transform.{section_sign}
use mcstatus_rust.Motd.Web.{color_named, from_hex, lstrip}

-- The class `[0-9A-FK-OR]` under `re.IGNORECASE`; the Kelvin sign is a K then.
unfoldable pub is_code : ℕ → Bool
is_code c =
    leb b'0' c && leb c b'9'
    || (leb b'A' c && leb c b'F'
        || (leb b'a' c && leb c b'f'
            || (leb b'K' c && leb c b'O'
                || (leb b'k' c && leb c b'o' || (c == b'R' || (c == b'r' || c == 0x212A))))))

-- The class `[\xA7|&]`: the bar is one of its characters.
unfoldable pub is_mark : ℕ → Bool
is_mark c = c == section_sign || (c == b'|' || c == b'&')

-- `_MOTD_COLORS_RE.split(raw)`, with the text since the last match: the matches stand between the
-- texts around them.
unfoldable pub split : Str → Str → List Str
unfolding is_mark is_code
split before [] = before ∷ []
split before (a ∷ []) = (before ++ a ∷ []) ∷ []
split before (a ∷ b ∷ s) =
    let after = split [] s in
    let on = split (before ++ a ∷ []) (b ∷ s) in
    if is_mark a && is_code b then before ∷ (a ∷ b ∷ []) ∷ after else on

-- `str.lower` of one character, as far as the result is ASCII.
unfoldable pub lower_char : ℕ → ℕ
lower_char c = if leb b'A' c && leb c b'Z' then c + 32 else if c == 0x212A then b'k' else c

-- `element.replace("&", "§").lower() == "§g"`
unfoldable pub is_minecoin : Str → Bool
unfolding lower_char
is_minecoin (a ∷ b ∷ []) = (a == section_sign || a == b'&') && lower_char b == b'g'
is_minecoin element = false

-- `element.replace("&", "§").lower().startswith("§")`
unfoldable pub is_marked : Str → Bool
is_marked [] = false
is_marked (a ∷ s) = a == section_sign || a == b'&'

-- `MinecraftColor(clean_element)`, else `Formatting(clean_element)`, else the text.
abbrev pub code_component : Str → Option MinecraftColor → Option Formatting → Component
code_component element (some c) o = color c
code_component element none (some f) = formatting f
code_component element none none = text element

-- Every value of the two enumerations is one character.
unfoldable pub parse_code : Str → Str → Component
unfolding lower_char color_of formatting_of
parse_code element (c ∷ []) =
    code_component element (color_of (lower_char c)) (formatting_of (lower_char c))
parse_code element clean = text element

-- What the loop of `_parse_as_str` appends for an element.
unfoldable pub parse_element : Bool → Str → List Component
unfolding parse_code is_minecoin is_marked lstrip
parse_element bedrock [] = []
parse_element bedrock (a ∷ s) =
    if is_minecoin (a ∷ s) && not bedrock
    then text (a ∷ s) ∷ []
    else if is_marked (a ∷ s)
    then parse_code (a ∷ s) (lstrip (λ c. c == section_sign || c == b'&') (a ∷ s)) ∷ []
    else text (a ∷ s) ∷ []

unfoldable pub parse_elements : Bool → List Str → List Component
unfolding parse_element
parse_elements bedrock [] = []
parse_elements bedrock (element ∷ rest) =
    parse_element bedrock element ++ parse_elements bedrock rest

-- `_parse_as_str`
unfoldable pub parse_as_str : Bool → Str → List Component
unfolding parse_elements split
parse_as_str bedrock raw = parse_elements bedrock (split [] raw)

-- A style key of a dict: not there (or null), `false`, or any other value.
pub data Style : Type 0 where
  absent is_false given : Style

-- A dict of the message, and the list under its key `extra`; no list is an empty one.
pub record Fields : Type 0 where
  pub color : Option Str
  pub style : Formatting → Style
  pub text : Option Str
  pub translate : Option Str

mutual
  pub data Item : Type 0 where
    item : Fields → Extras → Item

  pub data Extras : Type 0 where
    nil : Extras
    dict : Item → Extras → Extras
    string : Str → Extras → Extras

-- `Formatting.__members__`, in order.
abbrev pub members : List Formatting
members = bold ∷ italic ∷ underlined ∷ strikethrough ∷ obfuscated ∷ reset ∷ []

unfoldable pub is_member : Formatting → Component → Bool
unfolding formatting_value
is_member f (formatting g) = formatting_value g == formatting_value f
is_member f c = false

-- `parsed_motd.remove(style_val)`; a missing value is not an error of the caller.
unfoldable pub remove : Formatting → List Component → List Component
unfolding is_member
remove f [] = []
remove f (c ∷ cs) = let more = remove f cs in if is_member f c then cs else c ∷ more

abbrev pub apply_style : Style → Formatting → List Component → List Component
apply_style absent f parsed = parsed
apply_style is_false f parsed = remove f parsed
apply_style given f parsed = parsed ++ formatting f ∷ []

-- The loop over the style keys.
unfoldable pub apply_styles :
    (Formatting → Style) → List Formatting → List Component → List Component
unfolding remove
apply_styles style [] parsed = parsed
apply_styles style (f ∷ fs) parsed = apply_styles style fs (apply_style (style f) f parsed)

-- `filter(lambda e: type(e) is Formatting and e != Formatting.RESET, parsed_motd)`
unfoldable pub inherited : List Component → List Component
unfolding is_member
inherited [] = []
inherited (formatting f ∷ cs) =
    let more = inherited cs in if is_member reset (formatting f) then more else formatting f ∷ more
inherited (color c ∷ cs) = inherited cs
inherited (web w ∷ cs) = inherited cs
inherited (translation t ∷ cs) = inherited cs
inherited (text s ∷ cs) = inherited cs

module _ (decimal : ℕ → Option ℕ) where
  -- `_parse_color`
  unfoldable pub parse_color : Str → Result Component
  unfolding color_named from_hex
  parse_color name = elim (color_named name) [
    | some c ↦ ok (color c)
    | none ↦
        if name =s= codes "reset"
        then ok (formatting reset)
        else bind_result (from_hex decimal name) (λ w. ok (web w))
  ]

  abbrev pub add_color : Option Str → List Component → Result (List Component)
  add_color none parsed = ok parsed
  add_color (some name) parsed = bind_result (parse_color name) (λ c. ok (parsed ++ c ∷ []))

  abbrev pub add_text : Bool → Option Str → List Component → List Component
  add_text bedrock none parsed = parsed
  add_text bedrock (some s) parsed = parsed ++ parse_as_str bedrock s

  abbrev pub add_translate : Option Str → List Component → List Component
  add_translate none parsed = parsed
  add_translate (some s) parsed = parsed ++ translation s ∷ []

  -- `_parse_as_dict` up to `if "extra" in item`.
  unfoldable pub parse_fields : Bool → Fields → List Component → Result (List Component)
  unfolding parse_color apply_styles parse_as_str
  parse_fields bedrock fs auto_add = bind_result (add_color fs.color auto_add) (λ parsed.
      let styled = apply_styles fs.style members parsed in
      ok (add_translate fs.translate (add_text bedrock fs.text styled) ++ formatting reset ∷ []))

  -- `_parse_as_dict`. Under `extra`, `bedrock` is passed on to a text and not to a dict.
  unfoldable mutual
    unfolding parse_fields inherited parse_as_str

    pub parse_as_dict : Bool → Item → List Component → Result (List Component)
    parse_as_dict bedrock (item fields extra) auto_add =
        bind_result (parse_fields bedrock fields auto_add)
          (λ parsed. parse_extra bedrock extra (inherited parsed) parsed)

    pub parse_extra : Bool → Extras → List Component → List Component → Result (List Component)
    parse_extra bedrock nil auto_add parsed = ok parsed
    parse_extra bedrock (dict i rest) auto_add parsed =
        bind_result (parse_as_dict false i auto_add)
          (λ cs. parse_extra bedrock rest auto_add (parsed ++ cs))
    parse_extra bedrock (string s rest) auto_add parsed =
        parse_extra bedrock rest auto_add (parsed ++ auto_add ++ parse_as_str bedrock s)

-- What a server sends: a text, a dict or a list.
pub data Raw : Type 0 where
  raw_text : Str → Raw
  raw_dict : Item → Raw
  raw_list : Extras → Raw

pub record Motd : Type 0 where
  pub parsed : List Component
  pub raw : Raw
  pub bedrock : Bool

-- `{"extra": raw}`
abbrev pub only_extra : Extras → Item
only_extra extra =
    item (record { color = none; style = λ f. absent; text = none; translate = none }) extra

module _ (decimal : ℕ → Option ℕ) where
  unfoldable pub parse_raw : Bool → Raw → Result (List Component)
  unfolding parse_as_str parse_as_dict
  parse_raw bedrock (raw_text s) = ok (parse_as_str bedrock s)
  parse_raw bedrock (raw_dict i) = parse_as_dict decimal bedrock i []
  parse_raw bedrock (raw_list extra) = parse_as_dict decimal bedrock (only_extra extra) []

  -- `Motd.parse`
  unfoldable pub parse : Bool → Raw → Result Motd
  unfolding parse_raw
  parse bedrock raw =
      bind_result (parse_raw bedrock raw)
        (λ parsed. ok (record { parsed = parsed; raw = raw; bedrock = bedrock }))
