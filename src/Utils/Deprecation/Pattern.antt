-- ===== src/Utils/Deprecation/Pattern.antt =====
-- mcstatus/_utils/deprecation.py: its regular expressions. A pattern gives all its matches at the start of
-- a text in the order in which Python's engine tries them, each with its value and the rest of the text.
use mcstatus_rust.Prelude.{
  ℕ, zero, suc, ◌+◌, Bool, false, ◌&&◌, ◌||◌, Option, none, some, List, [], ◌∷◌, ◌++◌, map, codes,
  length, leb, ◌==◌, if◌then◌else◌,
}
use mcstatus_rust.Io.Text.{Str}
use mcstatus_rust.Motd.Simplify.{is_space}

abbrev pub Pattern : Type 0 → Type 0
Pattern A = Str → List (A × Str)

module _ {A B : Type 0} where
  abbrev pub each : List (A × Str) → (A → Pattern B) → List (B × Str)
  each [] f = []
  each ((a, rest) ∷ more) f = f a rest ++ each more f

  infixl 5 ◌>>=◌ ◌>>◌
  -- One pattern after another.
  unfoldable pub ◌>>=◌ : Pattern A → (A → Pattern B) → Pattern B
  (p >>= f) s = each (p s) f

  abbrev pub ◌>>◌ : Pattern A → Pattern B → Pattern B
  p >> q = p >>= λ _. q

module _ {A : Type 0} where
  abbrev pub pure : A → Pattern A
  pure a s = (a, s) ∷ []

  -- `p|q`
  unfoldable pub either : Pattern A → Pattern A → Pattern A
  either p q s = p s ++ q s

  abbrev pub present : A × Str → Option A × Str
  present (a, rest) = (some a, rest)

  -- `(p)?`
  unfoldable pub optional : Pattern A → Pattern (Option A)
  optional p s = map present (p s) ++ (none, s) ∷ []

-- One character of a class.
unfoldable pub one : (ℕ → Bool) → Pattern Str
one is [] = []
one is (c ∷ s) = if is c then (c ∷ [], s) ∷ [] else []

-- `[…]*`: as many as there are, then fewer.
unfoldable pub many : (ℕ → Bool) → Pattern Str
many is [] = ([], []) ∷ []
many is (c ∷ s) =
    let more = map (λ m. (c ∷ m.0, m.1)) (many is s) in
    if is c then more ++ ([], c ∷ s) ∷ [] else ([], c ∷ s) ∷ []

-- `[…]+`
unfoldable pub many1 : (ℕ → Bool) → Pattern Str
unfolding one many ◌>>=◌
many1 is = do c ← one is; cs ← many is; pure (c ++ cs)

-- `(p)*` of a pattern that matches a character at least; the rounds are those of the text.
unfoldable pub star : ℕ → Pattern Str → Pattern Str
unfolding ◌>>=◌
star zero p s = ([], s) ∷ []
star (suc k) p s = ((do a ← p; rest ← star k p; pure (a ++ rest)) s) ++ ([], s) ∷ []

unfoldable pub star_all : Pattern Str → Pattern Str
unfolding star
star_all p s = star (length s) p s

-- A small letter under IGNORECASE: its capital, and the other characters that fold to it.
unfoldable pub same_letter : ℕ → ℕ → Bool
same_letter c d =
    d == c
    || d + 32 == c
    || c == b's' && d == 0x17F
    || c == b'k' && d == 0x212A
    || c == b'i' && (d == 0x130 || d == 0x131)

-- A word of small letters, under IGNORECASE.
unfoldable pub word : Str → Pattern Str
unfolding one same_letter ◌>>=◌
word [] = pure []
word (c ∷ cs) = do d ← one (same_letter c); ds ← word cs; pure (d ++ ds)

-- The first that matches comes first.
unfoldable pub words : List Str → Pattern Str
unfolding word either
words [] s = []
words (w ∷ ws) s = either (word w) (words ws) s

unfoldable pub is_digit : ℕ → Bool
is_digit c = leb b'0' c && leb c b'9'

-- `[-_\.]`
unfoldable pub is_separator : ℕ → Bool
is_separator c = c == b'-' || c == b'_' || c == b'.'

abbrev pub any_letter : List ℕ → ℕ → Bool
any_letter [] d = false
any_letter (c ∷ cs) d = same_letter c d || any_letter cs d

-- `[a-z0-9]` under IGNORECASE
unfoldable pub is_local : ℕ → Bool
unfolding is_digit same_letter
is_local c = is_digit c || any_letter (codes "abcdefghijklmnopqrstuvwxyz") c

abbrev separator : Pattern (Option Str)
separator = optional (one is_separator)

abbrev number : Pattern (Option Str)
number = optional (many1 is_digit)

-- A separator, a word of a list and a number.
abbrev labelled : List Str → Pattern Str
labelled labels = do separator; l ← words labels; separator; number; pure l

abbrev letters : List Str
letters =
    codes "a"
    ∷ codes "b"
    ∷ codes "c"
    ∷ codes "rc"
    ∷ codes "alpha"
    ∷ codes "beta"
    ∷ codes "pre"
    ∷ codes "preview"
    ∷ []

abbrev post : Pattern Str
post =
    either (do d ← one (λ c. c == b'-'); n ← many1 is_digit; pure n)
      (labelled (codes "post" ∷ codes "rev" ∷ codes "r" ∷ []))

abbrev dev : Pattern Str
dev = do separator; l ← words (codes "dev" ∷ []); separator; number; pure l

abbrev local : Pattern Str
local = do
  p ← one (λ c. c == b'+')
  first ← many1 is_local
  rest ← star_all (do s ← one is_separator; t ← many1 is_local; pure (s ++ t))
  pure (first ++ rest)

-- `[0-9]+(?:\.[0-9]+)*`
unfoldable pub release : Pattern Str
unfolding many1 is_digit star_all one ◌>>=◌
release = do
  first ← many1 is_digit
  rest ← star_all (do d ← one (λ c. c == b'.'); n ← many1 is_digit; pure (d ++ n))
  pure (first ++ rest)

-- The group `epoch`, with its mark.
abbrev pub epoch_pattern : Pattern Str
epoch_pattern = do n ← many1 is_digit; e ← one (λ c. c == b'!'); pure n

-- What follows the release.
unfoldable pub suffix : Option Str → Str → Pattern (Option Str × Str)
unfolding is_space is_separator is_local words optional either many1 star_all ◌>>=◌
suffix epoch r = do
  optional (labelled letters)
  optional post
  optional dev
  optional local
  many is_space
  pure (epoch, r)

-- `VERSION_PATTERN_FULL`, with its groups `epoch` and `release`
unfoldable pub version_pattern : Pattern (Option Str × Str)
unfolding is_space optional word release suffix ◌>>=◌
version_pattern = do
  many is_space
  optional (word (codes "v"))
  epoch ← optional epoch_pattern
  r ← release
  suffix epoch r

-- `fullmatch`: the first match that leaves nothing.
abbrev pub first_full : {A : Type 0} → List (A × Str) → Option A
first_full [] = none
first_full ((a, []) ∷ more) = some a
first_full ((a, c ∷ s) ∷ more) = first_full more

abbrev pub fullmatch : {A : Type 0} → Pattern A → Str → Option A
fullmatch p s = first_full (p s)
