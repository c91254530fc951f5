-- ===== src/Utils/Deprecation/Laws.antt =====
-- mcstatus/_utils/deprecation.py: the steps of a deprecated function, and the cache of the version.
use mcstatus_rust.Prelude.{
  ℕ, ◌≡◌, refl, ap, sym, ◌∙◌, Option, none, some, [], ◌∷◌, ◌++◌, Bool-cases, inl, inr,
  if◌then◌else◌,
}
use mcstatus_rust.Prelude.Exec.{Exec, Result, ok, err, deprecation_warning, ◌>>=◌}
use mcstatus_rust.Io.Text.{Str}
use mcstatus_rust.Utils.Deprecation.Warn.{
  Version, Process, Removal, removal_version, get_project_version, through_cache, remember,
  parsed_version, not_before, deprecation_warn, wrapper, warn, pending_removal,
}

abbrev value : {A : Type 0} → Result A → Option A
value (ok a) = some a
value (err e) = none

remember-cached :
    (decimal : ℕ → Option ℕ) (p : Result Version × Process) (t : Process) (v : Version)
    → remember decimal p ≡ (ok v, t)
    → t.cached ≡ some v
remember-cached decimal (ok w, s) t v h = sym (ap (λ q. q.1.cached) h) ∙ ap (λ q. value q.0) h
remember-cached decimal (err e, s) t v h = cc

through_cache-cached :
    (decimal : ℕ → Option ℕ) (installed : Option Str) (c : Option Version) (s t : Process)
    (v : Version)
    → s.cached ≡ c
    → through_cache decimal c installed s ≡ (ok v, t)
    → t.cached ≡ some v
through_cache-cached decimal installed (some w) s t v c h =
    sym (ap (λ q. q.1.cached) h) ∙ c ∙ ap (λ q. value q.0) h
through_cache-cached decimal installed none s t v c h =
    remember-cached decimal (parsed_version decimal installed s) t v h

module _ (decimal : ℕ → Option ℕ) (installed : Option Str) where
  pub again :
      (other : Option Str) (s t : Process) (v : Version)
      → get_project_version decimal installed s ≡ (ok v, t)
      → get_project_version decimal other t ≡ (ok v, t)
  unfolding get_project_version
  again other s t v h =
      ap (λ c. through_cache decimal c other t)
        (through_cache-cached decimal installed s.cached s t v refl h)

  pub decided :
      {A : Type 0} (removal : Removal) (func : Exec Process A) (r v : Version) (s t : Process)
      → removal_version decimal removal ≡ ok r
      → get_project_version decimal installed s ≡ (ok v, t)
      → wrapper decimal installed removal func s ≡ (
          if not_before v r
          then (err deprecation_warning, t)
          else func (record t { warnings = t.warnings ++ pending_removal ∷ [] }))
  unfolding wrapper deprecation_warn ◌>>=◌ warn
  decided removal func r v s t e f = elim (Bool-cases (not_before v r)) [
    | inl late ↦ rw (e, f, late) refl
    | inr early ↦ rw (e, f, early) refl
  ]
