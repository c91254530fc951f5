-- ===== src/Tests/Message.antt =====
-- The messages at concrete inputs.
use mcstatus_rust.Prelude.{
  ℕ, ◌+◌, ◌*◌, ◌^◌, ◌≤◌, ◌≡◌, refl, List, [], ◌∷◌, ◌++◌, All, arith, true, false, some, length,
}
use mathlib.Core.List.{reverse}
use mcstatus_rust.Prelude.Exec.{ok, err, key_error}
use mcstatus_rust.Io.Text.{Str}
use mcstatus_rust.Io.Buffer.{init}
use mcstatus_rust.Motd.Components.{
  formatting, color, text, bold, reset, red, material_redstone, color_value, formatting_value,
  color_of, is_text,
}
use mcstatus_rust.Motd.Simplify.{Parsed, prune, simplify_loop}
use mcstatus_rust.Motd.Simplify.Fixpoint.{simplify_total}
use mcstatus_rust.Motd.Squash.{squash_nearby_strings}
use mcstatus_rust.Motd.Squash.Laws.{NoTwoTexts, markup, squash_ascending}
use mcstatus_rust.Motd.Squash.Order.{squash_descending}
use mcstatus_rust.Motd.Transform.{to_plain, to_minecraft}
use mcstatus_rust.Motd.Transform.Html.{to_html, to_ansi}
use mcstatus_rust.Motd.Transform.Html.Ansi.{to_ansi-outcome}
use mcstatus_rust.Motd.Transform.Html.Laws.{all_known, to_html-outcome}
use mcstatus_rust.Motd.Parse.{parse_as_str, is_code, is_mark}
use mcstatus_rust.Motd.Parse.Laws.{IsCanonical, parse_as_str-to_minecraft}
use mcstatus_rust.Motd.Parse.Codes.{IsReachable, parse_as_str-IsReachable}
use mcstatus_rust.Prelude.{none, map, codes, Option}
use mcstatus_rust.Prelude.Int.{pos}
use mcstatus_rust.Io.Text.{utf8_encode, utf8_char}
use mcstatus_rust.Io.Reader.Stream.{stream}
use mcstatus_rust.Io.Reader.RoundTrip.{Carries}
use mcstatus_rust.Io.Reader.Compose.{IsWireText}
use mcstatus_rust.Response.Forge.Decode.{ForgeDataChannel, decode_mod}
use mcstatus_rust.Response.Forge.Laws.{encode_mod, marker_of, named, mod-Carries}
use mcstatus_rust.Motd.Components.{WebColor}
use mcstatus_rust.Motd.Web.{from_rgb, from_hex}
use mcstatus_rust.Motd.Web.RoundTrip.{from_hex-from_rgb}
use mcstatus_rust.Response.Forge.Optimized.{decode_optimized}
use mcstatus_rust.Response.Forge.Base32768.{from_digits, to_digits, decode_optimized-digits}

abbrev message : Parsed
message = color red ∷ text (b'h' ∷ b'i' ∷ []) ∷ formatting bold ∷ text (b'x' ∷ []) ∷ []

message-IsCanonical : IsCanonical false message
unfolding is_code is_mark color_value formatting_value color_of
message-IsCanonical =
    (refl, (refl, ((refl, (refl, tt)), λ e. cc), ((refl, refl), (refl, ((refl, tt), λ e. cc), tt))))

parse_as_str-to_minecraft_example : parse_as_str false (to_minecraft message) ≡ message
parse_as_str-to_minecraft_example = parse_as_str-to_minecraft false message message-IsCanonical

abbrev struck : Str
struck = 0xA7 ∷ b'm' ∷ b'x' ∷ []

parse_as_str-IsReachable_example : All IsReachable (parse_as_str false struck)
parse_as_str-IsReachable_example = parse_as_str-IsReachable false struck

abbrev redstone : Parsed
redstone = color material_redstone ∷ text (b'x' ∷ []) ∷ []

to_html-outcome_example :
    ((s : Str) × (to_html true redstone ≡ ok s))
    × (all_known false redstone ≡ true → (s : Str) × (to_html false redstone ≡ ok s))
    × (all_known false redstone ≡ false → to_html false redstone ≡ err key_error)
to_html-outcome_example = to_html-outcome redstone

abbrev noisy : Parsed
noisy = color red ∷ color red ∷ text (b'a' ∷ []) ∷ formatting reset ∷ []

simplify_total_example :
    (q : Parsed) × (simplify_loop noisy ≡ some q)
    × (prune q ≡ q)
    × (to_plain q ≡ to_plain noisy)
    × (length q ≤ length noisy)
simplify_total_example = simplify_total noisy

abbrev two_texts : Parsed
two_texts = text (b'a' ∷ []) ∷ text (b'b' ∷ []) ∷ color red ∷ []

squash_ascending_example :
    (q : Parsed) × (squash_nearby_strings (λ xs. xs) two_texts ≡ ok q)
    × NoTwoTexts q
    × (to_plain q ≡ to_plain two_texts)
    × (markup q ≡ markup two_texts)
squash_ascending_example = squash_ascending two_texts

-- On 1 and 8 this is the order in which CPython walks the set of the two.
abbrev cpython : List ℕ → List ℕ
cpython xs = reverse xs

abbrev marks : Parsed
marks = color red ∷ color red ∷ color red ∷ color red ∷ []

squash_descending_example :
    squash_nearby_strings cpython (
      color red ∷ text (b'a' ∷ []) ∷ text (b'b' ∷ []) ∷ color red ∷ marks
      ++ text (b'c' ∷ []) ∷ text (b'd' ∷ []) ∷ [])
    ≡ ok (
        text (b'a' ∷ []) ∷ text (b'a' ∷ b'b' ∷ []) ∷ color red ∷ marks
        ++ text (b'c' ∷ b'd' ∷ []) ∷ [])
unfolding is_text
squash_descending_example =
    squash_descending cpython (color red) (color red) marks (b'a' ∷ []) (b'b' ∷ []) (b'c' ∷ [])
      (b'd' ∷ []) refl refl (refl, (refl, (refl, (refl, tt)))) refl

decode_optimized-digits_example :
    decode_optimized (2 ∷ 0 ∷ 0x6261 ∷ [])
    ≡ ok (init (to_digits (2 ^ 8) (2 + 0 * 2 ^ 15) (from_digits (2 ^ 15) (0x6261 ∷ []))))
decode_optimized-digits_example =
    decode_optimized-digits 2 0 (0x6261 ∷ []) (omega arith, (omega arith, (omega arith, tt)))

jei_encodes : utf8_encode (codes "jei") ≡ ok (codes "jei")
unfolding utf8_encode utf8_char
jei_encodes = refl

jei : IsWireText (codes "jei")
jei = record {
  code_points = (omega arith, (omega arith, (omega arith, tt)));
  encoded = codes "jei";
  encodes = jei_encodes;
  short_enough = omega arith;
}

abbrev channel : ForgeDataChannel
channel = record { name = codes "jei"; version = codes "jei"; required = true }

abbrev channels : List ForgeDataChannel
channels = channel ∷ []

mod-Carries_example : Carries (encode_mod (codes "jei") none channels) (decode_mod stream) (
  record { name = codes "jei"; marker = marker_of none },
  map (named (some (codes "jei"))) channels,
)
mod-Carries_example = mod-Carries (codes "jei") none channels jei tt ((jei, jei), tt) (omega arith)

abbrev no_digits : ℕ → Option ℕ
no_digits c = none

from_hex-from_rgb_example :
    (w : WebColor) × (from_rgb (pos 179) (pos 238) (pos 255) ≡ ok w)
    × (from_hex no_digits w.hex ≡ ok w)
    × (length w.hex ≡ 7)
from_hex-from_rgb_example =
    from_hex-from_rgb no_digits 179 238 255 (omega arith) (omega arith) (omega arith)

to_ansi-outcome_example :
    ((s : Str) × (to_ansi true redstone ≡ ok s))
    × (all_known false redstone ≡ true → (s : Str) × (to_ansi false redstone ≡ ok s))
    × (all_known false redstone ≡ false → to_ansi false redstone ≡ err key_error)
to_ansi-outcome_example = to_ansi-outcome redstone
