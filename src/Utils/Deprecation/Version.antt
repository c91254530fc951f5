-- ===== src/Utils/Deprecation/Version.antt =====
-- mcstatus/_utils/deprecation.py: the version of a package that has three numbers.
use mcstatus_rust.Prelude.{
  ℕ, suc, ◌≡◌, refl, ap, Bool, true, false, none, some, List, [], ◌∷◌, ◌++◌, All, map, codes,
  length, ◌==◌, arith, Bool-cases, inl, inr,
}
use mcstatus_rust.Io.Text.{Str}
use mcstatus_rust.Motd.Simplify.{is_space}
use mcstatus_rust.Utils.Deprecation.Pattern.{
  Pattern, ◌>>=◌, each, pure, either, optional, one, many, many1, star, star_all, word, words,
  same_letter, is_digit, is_separator, is_local, release, epoch_pattern, suffix, version_pattern,
  first_full, fullmatch,
}
use mcstatus_rust.Utils.Deprecation.Release.{
  First, First-bind, First-pure, First-optional, First-many, First-many1, First-dotted, First-star,
  First-star_end, dotted,
}

-- No match of an epoch without its mark.
abbrev NoMark : Str → Type 0
NoMark s = All (λ c. (c == b'!') ≡ false) s

abbrev Clear : List (Str × Str) → Type 0
Clear [] = Unit
Clear ((m, rest) ∷ l) = NoMark rest × Clear l

Clear-append : (l m : List (Str × Str)) → Clear l → Clear m → Clear (l ++ m)
Clear-append [] m h k = k
Clear-append ((x, r) ∷ l) m (h, hs) k = (h, Clear-append l m hs k)

Clear-map : (c : ℕ) (l : List (Str × Str)) → Clear l → Clear (map (λ m. (c ∷ m.0, m.1)) l)
Clear-map c [] h = tt
Clear-map c ((x, r) ∷ l) (h, hs) = (h, Clear-map c l hs)

many-Clear : (is : ℕ → Bool) (s : Str) → NoMark s → Clear (many is s)
unfolding many
many-Clear is [] h = (tt, tt)
many-Clear is (c ∷ s) (h, hs) = elim (Bool-cases (is c)) [
  | inl e ↦ rw e (
      Clear-append (map (λ m. (c ∷ m.0, m.1)) (many is s)) (([], c ∷ s) ∷ [])
        (Clear-map c (many is s) (many-Clear is s hs)) ((h, hs), tt))
  | inr e ↦ rw e ((h, hs), tt)
]

no_mark :
    {A : Type 0} (f : Str → Pattern A) (s : Str) → NoMark s → (one (λ c. c == b'!') >>= f) s ≡ []
unfolding one ◌>>=◌
no_mark f [] h = refl
no_mark f (c ∷ s) (h, hs) = rw h refl

no_mark_after :
    {A : Type 0} (f : Str → Str → Pattern A) (l : List (Str × Str))
    → Clear l
    → each l (λ n. one (λ c. c == b'!') >>= f n) ≡ []
no_mark_after f [] h = refl
no_mark_after f ((n, r) ∷ l) (h, hs) = rw (no_mark (f n) r h, no_mark_after f l hs) refl

pure_all : (g : Str → Str) (l : List (Str × Str)) → Clear l → Clear (each l (λ y. pure (g y)))
pure_all g [] h = tt
pure_all g ((y, r) ∷ l) (h, hs) = (h, pure_all g l hs)

many1-Clear : (is : ℕ → Bool) (s : Str) → NoMark s → Clear (many1 is s)
unfolding many1 one ◌>>=◌
many1-Clear is [] h = tt
many1-Clear is (c ∷ s) (h, hs) = elim (Bool-cases (is c)) [
  | inl e ↦ rw e (
      Clear-append (each (many is s) (λ y. pure (c ∷ y))) []
        (pure_all (λ y. c ∷ y) (many is s) (many-Clear is s hs)) tt)
  | inr e ↦ rw e tt
]

no_epoch :
    (s : Str) → NoMark s → (many1 is_digit >>= (λ n. one (λ c. c == b'!') >>= (λ e. pure n))) s ≡ []
unfolding ◌>>=◌
no_epoch s h = no_mark_after (λ n e. pure n) (many1 is_digit s) (many1-Clear is_digit s h)

abbrev pub Digits : Str → Type 0
Digits s = All (λ d. is_digit d ≡ true) s

digit_no_mark : (d : ℕ) → is_digit d ≡ true → (d == b'!') ≡ false
unfolding is_digit
digit_no_mark d h = ground arith

digit_no_space : (d : ℕ) → is_digit d ≡ true → is_space d ≡ false
unfolding is_digit is_space
digit_no_space d h = ground arith

digit_no_v : (d : ℕ) → is_digit d ≡ true → same_letter b'v' d ≡ false
unfolding is_digit same_letter
digit_no_v d h = ground arith

Digits-NoMark : (s rest : Str) → Digits s → NoMark rest → NoMark (s ++ rest)
Digits-NoMark [] rest h k = k
Digits-NoMark (d ∷ s) rest (h, hs) k = (digit_no_mark d h, Digits-NoMark s rest hs k)

-- Three numbers, given by their first digits and the others.
module _ (a : ℕ) (a' : Str) (b : ℕ) (b' : Str) (c : ℕ) (c' : Str) (first : Digits (a ∷ a'))
    (second : Digits (b ∷ b')) (third : Digits (c ∷ c')) where
  abbrev pub last_part : Str
  last_part = b'.' ∷ c ∷ c' ++ []

  abbrev pub later_parts : Str
  later_parts = b'.' ∷ b ∷ b' ++ last_part

  abbrev pub full : Str
  full = a ∷ a' ++ later_parts

  abbrev pub read : Str
  read = (a ∷ a') ++ ((b'.' ∷ b ∷ b') ++ ((b'.' ∷ c ∷ c') ++ []))

  First-release : First release full read []
  unfolding release star_all
  First-release =
      First-bind (many1 is_digit) (λ x. star_all dotted >>= (λ y. pure (x ++ y))) full later_parts
        [] (a ∷ a') read (First-many1 is_digit a a' later_parts (first.0) (first.1) refl)
        (First-bind (star_all dotted) (λ y. pure (a ∷ a' ++ y)) later_parts [] []
          ((b'.' ∷ b ∷ b') ++ ((b'.' ∷ c ∷ c') ++ [])) read
          (First-star dotted (suc (length (b' ++ last_part))) later_parts last_part []
            (b'.' ∷ b ∷ b') ((b'.' ∷ c ∷ c') ++ []) (First-dotted b b' last_part second refl)
            (First-star dotted (length (b' ++ last_part)) last_part [] [] (b'.' ∷ c ∷ c') []
              (First-dotted c c' [] third tt)
              (First-star_end dotted (length (b' ++ last_part)) [] refl)))
          (First-pure read []))

  starts_no_space : First (many is_space) full [] full
  starts_no_space = First-many is_space [] full tt (digit_no_space a first.0)

  starts_no_v : word (codes "v") full ≡ []
  unfolding word one ◌>>=◌
  starts_no_v = rw (digit_no_v a first.0) refl

  full-NoMark : NoMark full
  full-NoMark =
      Digits-NoMark (a ∷ a') later_parts first
        (refl, Digits-NoMark (b ∷ b') last_part second (refl, Digits-NoMark (c ∷ c') [] third tt))

  nothing_more : First (suffix none read) [] (none, read) []
  unfolding suffix is_space is_separator is_local words word optional either many1 star_all many one
      star ◌>>=◌
  nothing_more = ([], refl)

  First-version : First version_pattern full (none, read) []
  unfolding version_pattern
  First-version =
      First-bind (many is_space)
        (λ _.
          optional (word (codes "v"))
          >>= (λ _. optional epoch_pattern >>= (λ e. release >>= suffix e)))
        full full [] [] (none, read) starts_no_space
        (First-bind (optional (word (codes "v")))
          (λ _. optional epoch_pattern >>= (λ e. release >>= suffix e)) full full [] none
          (none, read) (First-optional (word (codes "v")) full starts_no_v)
          (First-bind (optional epoch_pattern) (λ e. release >>= suffix e) full full [] none
            (none, read) (First-optional epoch_pattern full (no_epoch full full-NoMark))
            (First-bind release (suffix none) full [] [] read (none, read) First-release
              nothing_more)))

  pub matched : fullmatch version_pattern full ≡ some (none, read)
  matched = ap first_full First-version.1
