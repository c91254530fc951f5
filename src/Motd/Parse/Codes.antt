-- ===== src/Motd/Parse/Codes.antt =====
-- mcstatus/motd/_motd.py: which components `_parse_as_str` gives.
use mcstatus_rust.Prelude.{
  ℕ, ◌≡◌, refl, subst, Bool, true, false, not, ◌&&◌, ◌||◌, Option, none, some, List, [], ◌∷◌, ◌++◌,
  ◌==◌, if◌then◌else◌, arith, All,
}
use mcstatus_rust.Io.Text.{Str}
use mcstatus_rust.Motd.Components.{
  Formatting, bold, italic, underlined, strikethrough, obfuscated, reset, MinecraftColor, Component,
  formatting, color_of, formatting_of,
}
use mcstatus_rust.Motd.Transform.{section_sign}
use mcstatus_rust.Motd.Web.{lstrip}
use mcstatus_rust.Motd.Parse.{
  split, lower_char, is_minecoin, is_marked, code_component, parse_code, parse_element,
  parse_elements, parse_as_str,
}

-- What a code can become: two of the formattings share their codes with colours of Bedrock.
abbrev pub IsReachable : Component → Type 0
IsReachable (formatting strikethrough) = ⊥
IsReachable (formatting underlined) = ⊥
IsReachable c = Unit

strikethrough_code : (c : ℕ) → formatting_of c ≡ some strikethrough → c ≡ b'm'
unfolding formatting_of
strikethrough_code c h = ground arith

underlined_code : (c : ℕ) → formatting_of c ≡ some underlined → c ≡ b'n'
unfolding formatting_of
underlined_code c h = ground arith

reachable :
    (c : ℕ) (f : Formatting)
    → color_of c ≡ none
    → formatting_of c ≡ some f
    → IsReachable (formatting f)
unfolding color_of
reachable c strikethrough h k =
    let e : color_of b'm' ≡ none = subst (λ x. color_of x ≡ none) (strikethrough_code c k) h in cc
reachable c underlined h k =
    let e : color_of b'n' ≡ none = subst (λ x. color_of x ≡ none) (underlined_code c k) h in cc
reachable c bold h k = tt
reachable c italic h k = tt
reachable c obfuscated h k = tt
reachable c reset h k = tt

IsReachable-component :
    (element : Str) (oc : Option MinecraftColor) (o : Option Formatting)
    → ((f : Formatting) → oc ≡ none → o ≡ some f → IsReachable (formatting f))
    → IsReachable (code_component element oc o)
IsReachable-component element (some c) o h = tt
IsReachable-component element none (some f) h = h f refl refl
IsReachable-component element none none h = tt

IsReachable-if :
    (b : Bool) (xs ys : List Component)
    → All IsReachable xs
    → All IsReachable ys
    → All IsReachable (if b then xs else ys)
IsReachable-if true xs ys h k = h
IsReachable-if false xs ys h k = k

IsReachable-code : (element clean : Str) → IsReachable (parse_code element clean)
unfolding parse_code
IsReachable-code element [] = tt
IsReachable-code element (c ∷ d ∷ s) = tt
IsReachable-code element (c ∷ []) = IsReachable-component element _ _ (reachable (lower_char c))

IsReachable-element : (b : Bool) (s : Str) → All IsReachable (parse_element b s)
unfolding parse_element
IsReachable-element b [] = tt
IsReachable-element b (a ∷ s) =
    IsReachable-if (is_minecoin (a ∷ s) && not b) _ _ (tt, tt)
      (IsReachable-if (is_marked (a ∷ s)) _ _
        (IsReachable-code (a ∷ s) (lstrip (λ c. c == section_sign || c == b'&') (a ∷ s)), tt)
        (tt, tt))

All-append :
    (xs ys : List Component) → All IsReachable xs → All IsReachable ys → All IsReachable (xs ++ ys)
All-append [] ys h k = k
All-append (x ∷ xs) ys h k = (h.0, All-append xs ys h.1 k)

IsReachable-elements : (b : Bool) (ss : List Str) → All IsReachable (parse_elements b ss)
unfolding parse_elements
IsReachable-elements b [] = tt
IsReachable-elements b (s ∷ ss) =
    All-append (parse_element b s) _ (IsReachable-element b s) (IsReachable-elements b ss)

-- A text never gives the formattings strikethrough and underlined, on either edition: their codes m
-- and n become colours of Bedrock.
pub parse_as_str-IsReachable :
    (bedrock : Bool) (raw : Str) → All IsReachable (parse_as_str bedrock raw)
unfolding parse_as_str
parse_as_str-IsReachable bedrock raw = IsReachable-elements bedrock (split [] raw)
