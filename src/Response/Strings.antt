-- ===== src/Response/Strings.antt =====
-- What the responses use of Python's strings: `strip`, `split` and `int`.
use mcstatus_rust.Prelude.{
  ℕ, ◌+◌, ◌-◌, ◌*◌, Bool, true, false, ◌&&◌, Option, none, some, List, [], ◌∷◌, ◌++◌, leb, ◌==◌,
  if◌then◌else◌,
}
use mathlib.Core.List.{reverse}
use mcstatus_rust.Prelude.Int.{ℤ}
use mcstatus_rust.Prelude.Exec.{Result, ok, err, value_error}
use mcstatus_rust.Io.Text.{Str}
use mcstatus_rust.Motd.Simplify.{is_space}
use mcstatus_rust.Motd.Web.{lstrip, signed}

-- `str.strip()`
unfoldable pub strip : Str → Str
unfolding lstrip is_space
strip s = reverse (lstrip is_space (reverse (lstrip is_space s)))

-- `str.split(sep)` of a separator of one character, with the text since the last one.
unfoldable pub split_from : ℕ → Str → Str → List Str
split_from sep before [] = before ∷ []
split_from sep before (c ∷ s) =
    let cut = split_from sep [] s in
    let on = split_from sep (before ++ c ∷ []) s in if c == sep then before ∷ cut else on

unfoldable pub split : ℕ → Str → List Str
unfolding split_from
split sep s = split_from sep [] s

-- `str.split(sep, 1)`: what stands before the first separator, and what behind it.
unfoldable pub split_once : ℕ → Str → Str × Option Str
split_once sep [] = ([], none)
split_once sep (c ∷ s) =
    let rest = split_once sep s in if c == sep then ([], some s) else (c ∷ rest.0, rest.1)

-- `int(text)`; `decimal c` is the value of a character that Unicode lists as a decimal digit and
-- that is not ASCII. The limit on the number of digits is left out.
module _ (decimal : ℕ → Option ℕ) where
  unfoldable pub digit10 : ℕ → Option ℕ
  digit10 c = if leb b'0' c && leb c b'9' then some (c - b'0') else decimal c

  -- An underscore may stand between two digits.
  unfoldable pub int_digits : Bool → ℕ → Str → Option ℕ
  unfolding digit10
  int_digits after_digit n [] = if after_digit then some n else none
  int_digits after_digit n (c ∷ s) =
      let skip = int_digits false n s in
      if c == b'_'
      then (if after_digit then skip else none)
      else elim (digit10 c) [ none ↦ none | some d ↦ int_digits true (n * 10 + d) s ]

  abbrev pub signed_int : Bool → Option ℕ → Result ℤ
  signed_int negative none = err value_error
  signed_int negative (some n) = ok (signed negative n)

  unfoldable pub int_stripped : Str → Result ℤ
  unfolding int_digits signed
  int_stripped [] = err value_error
  int_stripped (c ∷ s) =
      if c == b'-'
      then signed_int true (int_digits false 0 s)
      else if c == b'+'
      then signed_int false (int_digits false 0 s)
      else signed_int false (int_digits false 0 (c ∷ s))

  unfoldable pub int : Str → Result ℤ
  unfolding int_stripped strip
  int s = int_stripped (strip s)
