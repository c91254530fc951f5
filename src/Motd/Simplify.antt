-- ===== src/Motd/Simplify.antt =====
-- mcstatus/motd/_simplifies.py: the indices of the components that can be removed, and
-- `Motd.simplify` of mcstatus/motd/_motd.py. A `set[int]` is the list of its elements.
pub mod Markup
pub mod Fixpoint
use mcstatus_rust.Prelude.{
  ℕ, zero, suc, ◌+◌, ◌-◌, Bool, true, false, not, ◌&&◌, ◌||◌, Option, none, some, List, [], ◌∷◌,
  ◌++◌, length, ltb, leb, ◌==◌, if◌then◌else◌,
}
use mcstatus_rust.Io.Text.{Str}
use mcstatus_rust.Motd.Components.{
  Component, formatting, color, web, translation, text, Formatting, reset, formatting_value, same,
  is_color, is_formatting, is_text,
}

abbrev pub Parsed : Type 0
Parsed = List Component

-- `get_double_items`: the loop from index `i` on.
unfoldable pub double_items_from : ℕ → Parsed → List ℕ
double_items_from i [] = []
double_items_from i (item ∷ []) = []
double_items_from i (item ∷ next_item ∷ rest) =
    let more = double_items_from (i + 1) (next_item ∷ rest) in
    if (is_formatting item || is_color item) && same item next_item then i ∷ more else more

unfoldable pub get_double_items : Parsed → List ℕ
unfolding double_items_from
get_double_items parsed = double_items_from 0 parsed

abbrev pub add_index : Option ℕ → List ℕ → List ℕ
add_index none xs = xs
add_index (some i) xs = i ∷ xs

-- `get_double_colors`, with `prev_color`.
unfoldable pub double_colors_from : ℕ → Option ℕ → Parsed → List ℕ
double_colors_from i prev [] = []
double_colors_from i prev (item ∷ rest) =
    let prev' = (if is_text item then none else if is_color item then some i else prev) in
    let more = double_colors_from (i + 1) prev' rest in
    if is_color item then add_index prev more else more

unfoldable pub get_double_colors : Parsed → List ℕ
unfolding double_colors_from
get_double_colors parsed = double_colors_from 0 none parsed

-- `str.isspace` on the code points for which it is true.
unfoldable pub is_space : ℕ → Bool
is_space c =
    leb 0x09 c && leb c 0x0D
    || (leb 0x1C c && leb c 0x20
        || (c == 0x85
            || (c == 0xA0
                || (c == 0x1680
                    || (leb 0x2000 c && leb c 0x200A
                        || (c == 0x2028
                            || (c == 0x2029 || (c == 0x202F || (c == 0x205F || c == 0x3000)))))))))

unfoldable pub all_space : Str → Bool
all_space [] = true
all_space (c ∷ s) = is_space c && all_space s

-- `item.isspace()` is false of the empty text.
unfoldable pub is_blank : Component → Bool
is_blank (text []) = false
is_blank (text (c ∷ s)) = all_space (c ∷ s)
is_blank c = false

-- `get_formatting_before_color`, with `collected_formattings`.
unfoldable pub formatting_before_from : ℕ → List ℕ → Parsed → List ℕ
formatting_before_from i collected [] = []
formatting_before_from i collected (item ∷ rest) =
    let collected' = (if is_formatting item then i ∷ collected else collected) in
    let used = is_text item && not (is_blank item) || is_color item in
    let more = formatting_before_from (i + 1) (if used then [] else collected') rest in
    if is_color item then collected' ++ more else more

unfoldable pub get_formatting_before_color : Parsed → List ℕ
unfolding formatting_before_from
get_formatting_before_color parsed = formatting_before_from 0 [] parsed

abbrev pub same_option : Option Component → Component → Bool
same_option none c = false
same_option (some a) c = same a c

abbrev pub is_none : Option Component → Bool
is_none none = true
is_none (some a) = false

abbrev pub is_reset : Component → Bool
is_reset c = same c (formatting reset)

-- `get_meaningless_resets_and_colors`, with `active_color` and `active_formatting`.
unfoldable pub meaningless_from : ℕ → Option Component → Option Component → Parsed → List ℕ
meaningless_from i active_color active_formatting [] = []
meaningless_from i active_color active_formatting (item ∷ rest) =
    let idle = is_none active_color && is_none active_formatting in
    let active_color' =
      (if is_color item then some item else if is_reset item then none else active_color) in
    let active_formatting' =
      (if not (is_formatting item)
        then active_formatting
        else if is_reset item
        then none
        else some item) in
    let remove =
      (if is_color item
        then same_option active_color item
        else if is_reset item
        then idle
        else is_formatting item && same_option active_formatting item) in
    let more = meaningless_from (i + 1) active_color' active_formatting' rest in
    if remove then i ∷ more else more

unfoldable pub get_meaningless_resets_and_colors : Parsed → List ℕ
unfolding meaningless_from
get_meaningless_resets_and_colors parsed = meaningless_from 0 none none parsed

-- `get_end_non_text`: walking from the end, stop at the first text. An item is reached if no text
-- stands behind it.
unfoldable pub has_text : Parsed → Bool
has_text [] = false
has_text (item ∷ rest) = is_text item || has_text rest

unfoldable pub end_non_text_from : ℕ → Parsed → List ℕ
unfolding has_text
end_non_text_from i [] = []
end_non_text_from i (item ∷ rest) =
    let more = end_non_text_from (i + 1) rest in
    if not (has_text (item ∷ rest)) && (is_color item || is_formatting item) then i ∷ more else more

unfoldable pub get_end_non_text : Parsed → List ℕ
unfolding end_non_text_from
get_end_non_text parsed = end_non_text_from 0 parsed

unfoldable pub get_unused_elements : Parsed → List ℕ
get_unused_elements parsed =
    get_double_items parsed
    ++ (get_double_colors parsed
        ++ (get_formatting_before_color parsed
            ++ (get_meaningless_resets_and_colors parsed ++ get_end_non_text parsed)))

unfoldable pub contains : List ℕ → ℕ → Bool
contains [] i = false
contains (j ∷ js) i = i == j || contains js i

-- `[el for index, el in enumerate(parsed) if index not in unused_elements]`, from index `i` on.
unfoldable pub without_from : ℕ → List ℕ → Parsed → Parsed
unfolding contains
without_from i unused [] = []
without_from i unused (item ∷ rest) =
    let more = without_from (i + 1) unused rest in if contains unused i then more else item ∷ more

-- One round of the loop of `simplify`.
unfoldable pub prune : Parsed → Parsed
unfolding without_from get_unused_elements
prune parsed = without_from 0 (get_unused_elements parsed) parsed

unfoldable pub same_list : Parsed → Parsed → Bool
same_list [] [] = true
same_list [] (b ∷ bs) = false
same_list (a ∷ s) [] = false
same_list (a ∷ s) (b ∷ bs) = same a b && same_list s bs

-- `while parsed != old_parsed`; the first argument bounds the rounds, and `none` says that they ran
-- out.
unfoldable pub prune_loop : ℕ → Parsed → Option Parsed
prune_loop zero parsed = none
prune_loop (suc k) parsed =
    let more = prune_loop k (prune parsed) in
    if same_list (prune parsed) parsed then some (prune parsed) else more

-- Each round but the last removes a component, so that many rounds are enough.
unfoldable pub simplify_loop : Parsed → Option Parsed
unfolding prune_loop
simplify_loop parsed = prune_loop (suc (length parsed)) parsed
