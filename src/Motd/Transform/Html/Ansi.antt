-- ===== src/Motd/Transform/Html/Ansi.antt =====
-- mcstatus/motd/_transformers.py: when the ANSI transformer fails.
use mcstatus_rust.Prelude.{
  ◌≡◌, refl, subst, Bool, true, false, Option, none, some, List, [], ◌∷◌, ◌++◌,
}
use mcstatus_rust.Prelude.Exec.{Result, ok, err, key_error, bind_result}
use mcstatus_rust.Io.Text.{Str}
use mcstatus_rust.Motd.Components.{Component, formatting, color, web, translation, text}
use mcstatus_rust.Motd.Colors.{Rgb}
use mcstatus_rust.Motd.Transform.Html.{
  color_map, ansi_component, ansi_results, ansi_found, ansi_color, to_ansi,
}
use mcstatus_rust.Motd.Transform.Html.Laws.{Tells, known_color, all_known, all_known-bedrock}

Tells-ok :
    {A B : Type 0} (known : Bool) (r : Result A) (f : A → B)
    → Tells known r
    → Tells known (bind_result r (λ a. ok (f a)))
Tells-ok true (ok a) f h = (f a, refl)
Tells-ok true (err e) f h = absurd cc
Tells-ok false (ok a) f h = absurd cc
Tells-ok false (err e) f h = cc

ansi_color-Tells :
    (o : Option (Rgb × Rgb)) (opened : Str) (known : Bool) (rest : Result (List Str))
    → Tells known rest
    → Tells (known_color o known) (
        bind_result
          (bind_result (ansi_found o) (λ s. ok (opened ∷ s ∷ [])))
          (λ handled. bind_result rest (λ more. ok (handled ++ more))))
ansi_color-Tells none opened known rest h = refl
ansi_color-Tells (some x) opened known rest h = Tells-ok known rest _ h

ansi_results-Tells : (b : Bool) (cs : List Component) → Tells (all_known b cs) (ansi_results b cs)
unfolding ansi_results ansi_component ansi_color all_known
ansi_results-Tells b [] = ([], refl)
ansi_results-Tells b (text s ∷ cs) = Tells-ok _ _ _ (ansi_results-Tells b cs)
ansi_results-Tells b (translation s ∷ cs) = Tells-ok _ _ _ (ansi_results-Tells b cs)
ansi_results-Tells b (web w ∷ cs) = Tells-ok _ _ _ (ansi_results-Tells b cs)
ansi_results-Tells b (formatting f ∷ cs) = Tells-ok _ _ _ (ansi_results-Tells b cs)
ansi_results-Tells b (color c ∷ cs) =
    ansi_color-Tells (color_map b c) _ (all_known b cs) (ansi_results b cs)
      (ansi_results-Tells b cs)

to_ansi-Tells : (b : Bool) (cs : List Component) → Tells (all_known b cs) (to_ansi b cs)
unfolding to_ansi
to_ansi-Tells b cs = Tells-ok _ _ _ (ansi_results-Tells b cs)

-- A message of a Bedrock server always has an ANSI form. For a Java server it has one exactly if each
-- of its colours is in the Java map; otherwise there is a `KeyError`.
pub to_ansi-outcome :
    (cs : List Component)
    → ((s : Str) × (to_ansi true cs ≡ ok s))
      × (all_known false cs ≡ true → (s : Str) × (to_ansi false cs ≡ ok s))
      × (all_known false cs ≡ false → to_ansi false cs ≡ err key_error)
to_ansi-outcome cs = (
  subst (λ k. Tells k (to_ansi true cs)) (all_known-bedrock cs) (to_ansi-Tells true cs),
  λ h. subst (λ k. Tells k (to_ansi false cs)) h (to_ansi-Tells false cs),
  λ h. subst (λ k. Tells k (to_ansi false cs)) h (to_ansi-Tells false cs),
)
