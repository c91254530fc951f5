-- ===== src/Utils/Deprecation/Outcome.antt =====
-- mcstatus/_utils/deprecation.py: what a deprecated function does, from the texts of the two versions.
use mcstatus_rust.Prelude.{
  ℕ, ◌≡◌, refl, ap, sym, ◌∙◌, true, false, Option, none, some, [], ◌∷◌, ◌++◌, ◌==◌, append-nil,
  arith, All,
}
use mcstatus_rust.Prelude.Int.{ℤ}
use mcstatus_rust.Prelude.Exec.{Exec, ok, err, deprecation_warning}
use mcstatus_rust.Io.Text.{Str}
use mcstatus_rust.Response.Strings.{int, digit10}
use mcstatus_rust.Utils.Deprecation.Pattern as Pattern
use mcstatus_rust.Utils.Deprecation.Pattern.{
  Pattern, is_digit, many1, one, fullmatch, first_full, pure,
}
use mcstatus_rust.Utils.Deprecation.Release.{
  First, Stops, First-bind, First-pure, First-one, First-many1,
}
use mcstatus_rust.Utils.Deprecation.Version.{Digits}
use mcstatus_rust.Utils.Deprecation.Project.{dotted_text, get_project_version-dotted}
use mcstatus_rust.Utils.Deprecation.Order.{Before, Before-not_before, late-not_before}
use mcstatus_rust.Utils.Deprecation.Laws.{decided, again}
use mcstatus_rust.Utils.Deprecation.Warn.{
  Process, text, removal_pattern, removal_version, of_groups, is_decimal, get_project_version,
  wrapper, pending_removal,
}

module _ (decimal : ℕ → Option ℕ) (no_dot : decimal b'.' ≡ none) where
  digit-decimal : (d : ℕ) → is_digit d ≡ true → is_decimal decimal d ≡ true
  unfolding is_digit digit10
  digit-decimal d h = ground arith

  Digits-decimal : (s : Str) → Digits s → All (λ d. is_decimal decimal d ≡ true) s
  Digits-decimal [] h = tt
  Digits-decimal (d ∷ s) (h, hs) = (digit-decimal d h, Digits-decimal s hs)

  dot-decimal : is_decimal decimal b'.' ≡ false
  unfolding digit10
  dot-decimal = rw no_dot refl

  abbrev dot : Pattern Str
  dot = one (λ d. d == b'.')

  abbrev number : Pattern Str
  number = many1 (is_decimal decimal)

  abbrev last_number : Str → Str → Pattern (Str × Str × Str)
  last_number a b = Pattern.◌>>=◌ number (λ c. pure (a, b, c))

  abbrev later_numbers : Str → Pattern (Str × Str × Str)
  later_numbers a = Pattern.◌>>=◌ number (λ b. Pattern.◌>>◌ dot (last_number a b))

  First-number :
      {B : Type 0} (f : Str → Pattern B) (a : ℕ) (a' r : Str) (y : B)
      → Digits (a ∷ a')
      → Stops (is_decimal decimal) r
      → First (f (a ∷ a')) r y []
      → First (Pattern.◌>>=◌ number f) ((a ∷ a') ++ r) y []
  First-number f a a' r y h k n =
      let hd = Digits-decimal (a ∷ a') h in
      First-bind number f ((a ∷ a') ++ r) r [] (a ∷ a') y
        (First-many1 (is_decimal decimal) a a' r hd.0 hd.1 k) n

  First-dot :
      {B : Type 0} (p : Pattern B) (r : Str) (y : B)
      → First p r y []
      → First (Pattern.◌>>◌ dot p) (b'.' ∷ r) y []
  First-dot p r y n =
      First-bind dot (λ _. p) (b'.' ∷ r) r [] (b'.' ∷ []) y (First-one (λ d. d == b'.') b'.' r refl)
        n

  removal_read :
      (a : ℕ) (a' : Str) (b : ℕ) (b' : Str) (c : ℕ) (c' : Str)
      → Digits (a ∷ a')
      → Digits (b ∷ b')
      → Digits (c ∷ c')
      → First
          (removal_pattern decimal)
          (dotted_text (a ∷ a') (b ∷ b') ((c ∷ c') ++ []))
          (a ∷ a', b ∷ b', c ∷ c')
          []
  unfolding removal_pattern
  removal_read a a' b b' c c' h k l =
      let y : Str × Str × Str = (a ∷ a', b ∷ b', c ∷ c') in
      let at_b = b'.' ∷ ((b ∷ b') ++ b'.' ∷ ((c ∷ c') ++ [])) in
      let at_c = b'.' ∷ ((c ∷ c') ++ []) in
      First-number (λ x. Pattern.◌>>◌ dot (later_numbers x)) a a' at_b y h dot-decimal
        (First-dot (later_numbers (a ∷ a')) ((b ∷ b') ++ at_c) y (
          First-number (λ x. Pattern.◌>>◌ dot (last_number (a ∷ a') x)) b b' at_c y k dot-decimal
            (First-dot (last_number (a ∷ a') (b ∷ b')) ((c ∷ c') ++ []) y
              (First-number (λ x. pure (a ∷ a', b ∷ b', x)) c c' [] y l tt (First-pure y [])))))

  -- `removal_version` of a text of three numbers.
  removal_version-dotted :
      (a : ℕ) (a' : Str) (b : ℕ) (b' : Str) (c : ℕ) (c' : Str) (x y z : ℤ)
      → Digits (a ∷ a')
      → Digits (b ∷ b')
      → Digits (c ∷ c')
      → int decimal (a ∷ a') ≡ ok x
      → int decimal (b ∷ b') ≡ ok y
      → int decimal (c ∷ c') ≡ ok z
      → removal_version decimal (text (dotted_text (a ∷ a') (b ∷ b') (c ∷ c'))) ≡ ok (x, y, z)
  unfolding removal_version
  removal_version-dotted a a' b b' c c' x y z h k l e f g =
      ap
        (λ t.
          of_groups decimal
            (fullmatch (removal_pattern decimal) (dotted_text (a ∷ a') (b ∷ b') (c ∷ t))))
        (sym (append-nil c'))
      ∙ ap (λ m. of_groups decimal (first_full m)) (removal_read a a' b b' c c' h k l).1
      ∙ rw (e, f, g) refl

-- A package installed as `X.Y.Z` and a removal at `P.Q.R`, in ASCII digits.
module _ (decimal : ℕ → Option ℕ) (no_dot : decimal b'.' ≡ none) where
  -- A function that is deprecated until `P.Q.R` raises `DeprecationWarning` and is not called if the
  -- installed `X.Y.Z` is `P.Q.R` or comes after it, number by number; if `X.Y.Z` comes before it, the function
  -- is called after one warning more. The version is cached, and later calls, whatever is installed by then,
  -- find it in the cache. This is for versions of three numbers in ASCII digits, before the version of the
  -- package has been asked for, and if the dot is no Unicode digit.
  pub wrapper-outcome :
      {A : Type 0} (a : ℕ) (a' : Str) (b : ℕ) (b' : Str) (c : ℕ) (c' : Str) (x y z : ℤ) (i : ℕ)
      (i' : Str) (j : ℕ) (j' : Str) (k : ℕ) (k' : Str) (p q r : ℤ) (func : Exec Process A)
      (s : Process) (other : Option Str)
      → (Digits (a ∷ a') × Digits (b ∷ b') × Digits (c ∷ c'))
      → ((int decimal (a ∷ a') ≡ ok x)
          × (int decimal (b ∷ b') ≡ ok y)
          × (int decimal (c ∷ c') ≡ ok z))
      → (Digits (i ∷ i') × Digits (j ∷ j') × Digits (k ∷ k'))
      → ((int decimal (i ∷ i') ≡ ok p)
          × (int decimal (j ∷ j') ≡ ok q)
          × (int decimal (k ∷ k') ≡ ok r))
      → s.cached ≡ none
      → let installed = some (dotted_text (a ∷ a') (b ∷ b') (c ∷ c')) in
        let removal = text (dotted_text (i ∷ i') (j ∷ j') (k ∷ k')) in
        let known = record s { cached = some (x, y, z) } in
        (Before (x, y, z) (p, q, r)
          → wrapper decimal installed removal func s
            ≡ func (record known { warnings = s.warnings ++ pending_removal ∷ [] }))
        × (¬ Before (x, y, z) (p, q, r)
            → wrapper decimal installed removal func s ≡ (err deprecation_warning, known))
        × (get_project_version decimal other known ≡ (ok (x, y, z), known))
  wrapper-outcome a a' b b' c c' x y z i i' j j' k k' p q r func s other hd hi kd ki empty =
      let version =
        get_project_version-dotted decimal a a' b b' c c' x y z s hd.0 hd.1 hd.2 hi.0 hi.1 hi.2
          empty in
      let removed =
        removal_version-dotted decimal no_dot i i' j j' k k' p q r kd.0 kd.1 kd.2 ki.0 ki.1 ki.2 in
      let outcome = decided decimal _ (text _) func (p, q, r) (x, y, z) s _ removed version in
      (
        λ before. outcome ∙ rw (Before-not_before (x, y, z) (p, q, r) before) refl,
        λ late. outcome ∙ rw (late-not_before (x, y, z) (p, q, r) late) refl,
        again decimal _ other s _ (x, y, z) version,
      )
