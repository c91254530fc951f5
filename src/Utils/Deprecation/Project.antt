-- ===== src/Utils/Deprecation/Project.antt =====
-- mcstatus/_utils/deprecation.py: the version of the project, from one of three numbers.
use mcstatus_rust.Prelude.{
  ℕ, ◌≡◌, refl, ap, sym, ◌∙◌, subst, true, false, Option, none, some, [], ◌∷◌, ◌++◌, ◌==◌, arith,
  append-nil, append_assoc,
}
use mcstatus_rust.Prelude.Int.{ℤ}
use mcstatus_rust.Prelude.Exec.{ok, ◌>>=◌}
use mcstatus_rust.Io.Text.{Str}
use mcstatus_rust.Response.Strings.{split, split_from, int}
use mcstatus_rust.Utils.Deprecation.Pattern.{is_digit, version_pattern, fullmatch}
use mcstatus_rust.Utils.Deprecation.Version.{Digits, matched}
use mcstatus_rust.Utils.Deprecation.Warn.{
  Process, ints, three, of_match, get_project_version, through_cache, remember,
}

digit_no_dot : (d : ℕ) → is_digit d ≡ true → (d == b'.') ≡ false
unfolding is_digit
digit_no_dot d h = ground arith

split_run :
    (before ds rest : Str)
    → Digits ds
    → split_from b'.' before (ds ++ b'.' ∷ rest) ≡ (before ++ ds) ∷ split_from b'.' [] rest
unfolding split_from
split_run before [] rest h = ap (λ x. x ∷ split_from b'.' [] rest) (sym (append-nil before))
split_run before (d ∷ ds) rest (h, hs) = rw (digit_no_dot d h) (
    split_run (before ++ d ∷ []) ds rest hs
    ∙ ap (λ x. x ∷ split_from b'.' [] rest) (append_assoc before (d ∷ []) ds))

split_end : (before ds : Str) → Digits ds → split_from b'.' before ds ≡ (before ++ ds) ∷ []
unfolding split_from
split_end before [] h = ap (λ x. x ∷ []) (sym (append-nil before))
split_end before (d ∷ ds) (h, hs) =
    rw (digit_no_dot d h)
      (split_end (before ++ d ∷ []) ds hs ∙ ap (λ x. x ∷ []) (append_assoc before (d ∷ []) ds))

-- `X.Y.Z`
abbrev pub dotted_text : Str → Str → Str → Str
dotted_text a b c = a ++ b'.' ∷ (b ++ b'.' ∷ c)

three_parts :
    (a b c : Str) → Digits a → Digits b → Digits c → split b'.' (dotted_text a b c) ≡ a ∷ b ∷ c ∷ []
unfolding split
three_parts a b c h k l =
    split_run [] a (b ++ b'.' ∷ c) h
    ∙ ap (λ x. a ∷ x) (split_run [] b c k ∙ ap (λ x. b ∷ x) (split_end [] c l))

module _ (decimal : ℕ → Option ℕ) where
  read_three :
      (a b c : Str) (x y z : ℤ) (s : Process)
      → Digits a
      → Digits b
      → Digits c
      → int decimal a ≡ ok x
      → int decimal b ≡ ok y
      → int decimal c ≡ ok z
      → of_match decimal (some (none, dotted_text a b c)) s ≡ (ok (x, y, z), s)
  unfolding ints three ◌>>=◌
  read_three a b c x y z s h k l e f g = rw (three_parts a b c h k l, e, f, g) refl

  full_text :
      (a : ℕ) (a' : Str) (b : ℕ) (b' : Str) (c : ℕ) (c' : Str) (h : Digits (a ∷ a'))
      (k : Digits (b ∷ b')) (l : Digits (c ∷ c'))
      → fullmatch version_pattern (dotted_text (a ∷ a') (b ∷ b') (c ∷ c'))
        ≡ some (none, dotted_text (a ∷ a') (b ∷ b') (c ∷ c'))
  full_text a a' b b' c c' h k l =
      subst
        (λ t.
          fullmatch version_pattern (dotted_text (a ∷ a') (b ∷ b') (c ∷ t))
          ≡ some (none, dotted_text (a ∷ a') (b ∷ b') (c ∷ t)))
        (append-nil c') (matched a a' b b' c c' h k l)

  -- An installed version `X.Y.Z` of three numbers in ASCII digits is read as these three numbers, without
  -- a warning, and cached.
  pub get_project_version-dotted :
      (a : ℕ) (a' : Str) (b : ℕ) (b' : Str) (c : ℕ) (c' : Str) (x y z : ℤ) (s : Process)
      → Digits (a ∷ a')
      → Digits (b ∷ b')
      → Digits (c ∷ c')
      → int decimal (a ∷ a') ≡ ok x
      → int decimal (b ∷ b') ≡ ok y
      → int decimal (c ∷ c') ≡ ok z
      → s.cached ≡ none
      → get_project_version decimal (some (dotted_text (a ∷ a') (b ∷ b') (c ∷ c'))) s
        ≡ (ok (x, y, z), record s { cached = some (x, y, z) })
  unfolding get_project_version
  get_project_version-dotted a a' b b' c c' x y z s h k l e f g none_cached =
      ap (λ o. through_cache decimal o (some (dotted_text (a ∷ a') (b ∷ b') (c ∷ c'))) s)
        none_cached
      ∙ ap (λ m. remember decimal (of_match decimal m s)) (full_text a a' b b' c c' h k l)
      ∙ ap (remember decimal) (read_three (a ∷ a') (b ∷ b') (c ∷ c') x y z s h k l e f g)
