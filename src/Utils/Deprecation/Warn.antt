-- ===== src/Utils/Deprecation/Warn.antt =====
-- mcstatus/_utils/deprecation.py: `deprecation_warn` and `deprecated`. A warning is recorded by its class;
-- no filter turns it into an error.
use mcstatus_rust.Prelude.{
  ℕ, Bool, true, false, not, ◌&&◌, ◌||◌, Option, none, some, List, [], ◌∷◌, ◌++◌, codes, ◌==◌,
  if◌then◌else◌,
}
use mcstatus_rust.Prelude.Int.{ℤ, pos, ltb_ℤ}
use mcstatus_rust.Prelude.Exec.{
  Exec, Result, ok, err, value_error, deprecation_warning, pure, raise, lift, ◌>>=◌, ◌>>◌,
  bind_result,
}
use mcstatus_rust.Io.Text.{Str}
use mcstatus_rust.Motd.Simplify.{is_space}
use mcstatus_rust.Response.Strings.{split, int, digit10}
use mcstatus_rust.Utils.Deprecation.Pattern as Pattern
use mcstatus_rust.Utils.Deprecation.Pattern.{
  Pattern, many, many1, one, version_pattern, fullmatch, first_full,
}

abbrev pub Version : Type 0
Version = ℤ × ℤ × ℤ

abbrev pub no_version : Version
no_version = (pos 0, pos 0, pos 0)

pub data Warning : Type 0 where
  runtime_warning pending_removal : Warning

-- The cache of `_get_project_version`, and the warnings so far.
pub record Process : Type 0 where
  pub cached : Option Version
  pub warnings : List Warning

unfoldable pub warn : Warning → Exec Process (Unit {0})
warn w self = (ok tt, record self { warnings = self.warnings ++ w ∷ [] })

-- `removal_version`, a text or three numbers
pub data Removal : Type 0 where
  text : Str → Removal
  numbers : Version → Removal

module _ (decimal : ℕ → Option ℕ) where
  -- `[int(p) for p in …]`
  unfoldable pub ints : List Str → Result (List ℤ)
  ints [] = ok []
  ints (p ∷ ps) = bind_result (int decimal p) (λ n. bind_result (ints ps) (λ ns. ok (n ∷ ns)))

  -- Three components, with a warning if there were fewer or more.
  unfoldable pub three : List ℤ → Exec Process Version
  unfolding warn
  three [] = do warn runtime_warning; pure no_version
  three (a ∷ []) = do warn runtime_warning; pure (a, pos 0, pos 0)
  three (a ∷ b ∷ []) = do warn runtime_warning; pure (a, b, pos 0)
  three (a ∷ b ∷ c ∷ []) = pure (a, b, c)
  three (a ∷ b ∷ c ∷ d ∷ more) = do warn runtime_warning; pure (a, b, c)

  abbrev pub of_match : Option (Option Str × Str) → Exec Process Version
  of_match none = do warn runtime_warning; pure no_version
  of_match (some (some epoch, release)) = do warn runtime_warning; pure no_version
  of_match (some (none, release)) = do nums ← lift (ints (split b'.' release)); three nums

  -- The body of `_get_project_version`, of the version that is installed.
  abbrev pub parsed_version : Option Str → Exec Process Version
  parsed_version none = do warn runtime_warning; pure no_version
  parsed_version (some project_version) = of_match (fullmatch version_pattern project_version)

  abbrev pub remember : Result Version × Process → Result Version × Process
  remember (ok v, self) = (ok v, record self { cached = some v })
  remember (err e, self) = (err e, self)

  abbrev pub through_cache : Option Version → Option Str → Exec Process Version
  through_cache (some v) installed self = (ok v, self)
  through_cache none installed self = remember (parsed_version installed self)

  -- `_get_project_version`, behind `lru_cache(maxsize=1)`
  unfoldable pub get_project_version : Option Str → Exec Process Version
  unfolding ints three warn version_pattern
  get_project_version installed self = through_cache self.cached installed self

  abbrev pub is_decimal : ℕ → Bool
  is_decimal c = elim (digit10 decimal c) [ none ↦ false | some d ↦ true ]

  -- `REMOVAL_VERSION_RE`
  unfoldable pub removal_pattern : Pattern (Str × Str × Str)
  unfolding many1 one Pattern.◌>>=◌
  removal_pattern = Pattern.◌>>=◌ (many1 is_decimal) (λ a. Pattern.◌>>◌ (one (λ c. c == b'.')) (
      Pattern.◌>>=◌ (many1 is_decimal) (λ b.
        Pattern.◌>>◌ (one (λ c. c == b'.'))
          (Pattern.◌>>=◌ (many1 is_decimal) (λ c. Pattern.pure (a, b, c))))))

  abbrev pub of_groups : Option (Str × Str × Str) → Result Version
  of_groups none = err value_error
  of_groups (some (a, b, c)) =
      bind_result (int decimal a)
        (λ x. bind_result (int decimal b) (λ y. bind_result (int decimal c) (λ z. ok (x, y, z))))

  unfoldable pub removal_version : Removal → Result Version
  unfolding removal_pattern
  removal_version (text s) = of_groups (fullmatch removal_pattern s)
  removal_version (numbers v) = ok v

-- `a >= b` of tuples
unfoldable pub not_before : Version → Version → Bool
not_before (a, b, c) (x, y, z) =
    ltb_ℤ x a || not (ltb_ℤ a x) && (ltb_ℤ y b || not (ltb_ℤ b y) && not (ltb_ℤ c z))

module _ (decimal : ℕ → Option ℕ) (installed : Option Str) where
  unfoldable pub deprecation_warn : Removal → Exec Process (Unit {0})
  unfolding removal_version get_project_version not_before warn
  deprecation_warn removal = do
    removal ← lift (removal_version decimal removal)
    project ← get_project_version decimal installed
    if not_before project removal then raise deprecation_warning else warn pending_removal

  -- The function that `deprecated` makes of `func`.
  unfoldable pub wrapper : {A : Type 0} → Removal → Exec Process A → Exec Process A
  unfolding deprecation_warn
  wrapper removal func = do deprecation_warn removal; func

-- A text as it is written.
unfoldable pub exactly : Str → Pattern Str
unfolding one Pattern.◌>>=◌
exactly [] = Pattern.pure []
exactly (c ∷ cs) = Pattern.◌>>◌ (one (λ d. d == c)) (exactly cs)

-- `DEPRECATED_DIRECTIVE_RE` behind its `^`.
unfoldable pub directive : Pattern Str
unfolding many many1 one is_space exactly Pattern.◌>>=◌
directive = Pattern.◌>>◌ (many is_space) (
    Pattern.◌>>◌ (exactly (codes "..")) (
      Pattern.◌>>◌ (many1 is_space)
        (Pattern.◌>>◌ (exactly (codes "deprecated::")) (many is_space))))

abbrev is_match : List (Str × Str) → Bool
is_match [] = false
is_match (m ∷ ms) = true

-- `search` of it, and whether a line starts here.
unfoldable pub has_directive : Bool → Str → Bool
unfolding directive
has_directive start [] = start && is_match (directive [])
has_directive start (c ∷ s) =
    let later = has_directive (c == 10) s in
    if start && is_match (directive (c ∷ s)) then true else later

abbrev doc_text : Option Str → Str
doc_text none = []
doc_text (some doc) = doc

-- What `deprecated` checks of the docstring of a function.
unfoldable pub check_docstring : Bool → Option Str → Result (Unit {0})
unfolding has_directive
check_docstring no_docstring_check doc =
    if not no_docstring_check && not (has_directive true (doc_text doc))
    then err value_error
    else ok tt
