-- ===== src/Motd/Squash/Order.antt =====
-- mcstatus/motd/_simplifies.py: `squash_nearby_strings` with a later filler walked before an earlier
-- one.
use mcstatus_rust.Prelude.{
  ℕ, suc, ◌+◌, ◌≡◌, refl, ap, ◌∙◌, false, List, [], ◌∷◌, ◌++◌, length, arith,
}
use mcstatus_rust.Prelude.Exec.{ok}
use mcstatus_rust.Prelude.{All}
use mcstatus_rust.Io.Text.{Str}
use mcstatus_rust.Motd.Components.{Component, text, is_text}
use mcstatus_rust.Motd.Simplify.{Parsed}
use mcstatus_rust.Motd.Squash.{glue, glue_from, pop, pop_shifted, pop_all, squash_nearby_strings}
use mcstatus_rust.Motd.Squash.Laws.{pop_shifted-append}

abbrev pub NoText : Component → Type 0
NoText c = is_text c ≡ false

module _ (c d : Str) where
  abbrev gap_tail : Parsed
  gap_tail = text c ∷ text d ∷ []

  abbrev glued_tail : Parsed
  glued_tail = text c ∷ text (c ++ d) ∷ []

  glue_gap :
      (i : ℕ) (m : Component) (ms : Parsed)
      → NoText m
      → All NoText ms
      → glue_from i m (ms ++ gap_tail) ≡ (m ∷ ms ++ glued_tail, (i + length ms + 1) ∷ [])
  unfolding glue_from glue is_text
  glue_gap i m [] h hs =
      let e : i + 1 ≡ i + 0 + 1 = omega arith in rw h (ap (λ (t : ℕ). (m ∷ glued_tail, t ∷ [])) e)
  glue_gap i m (n ∷ ms) h (k, hs) =
      let e : i + 1 + length ms + 1 ≡ i + suc (length ms) + 1 = omega arith in
      rw (h, glue_gap (i + 1) n ms k hs) (ap (λ (t : ℕ). (m ∷ n ∷ ms ++ glued_tail, t ∷ [])) e)

module _ (x m : Component) (ms : Parsed) (a b c d : Str) (hx : NoText x) (hm : NoText m)
    (hms : All NoText ms) where
  glue_all :
      glue_from 0 x (text a ∷ text b ∷ m ∷ ms ++ gap_tail c d)
      ≡ (x ∷ text a ∷ text (a ++ b) ∷ m ∷ ms ++ glued_tail c d, 1 ∷ (length ms + 4) ∷ [])
  unfolding glue_from glue is_text
  glue_all =
      let e : 3 + length ms + 1 ≡ length ms + 4 = omega arith in
      rw (hx, hm, glue_gap c d 3 m ms hm hms)
        (ap (λ (t : ℕ). (x ∷ text a ∷ text (a ++ b) ∷ m ∷ ms ++ glued_tail c d, 1 ∷ t ∷ [])) e)

  pop_both :
      pop_all 0 ((length ms + 4) ∷ 1 ∷ []) (x ∷ text a ∷ text (a ++ b) ∷ m ∷ ms ++ glued_tail c d)
      ≡ ok (text a ∷ text (a ++ b) ∷ m ∷ ms ++ text (c ++ d) ∷ [])
  unfolding pop_all pop
  pop_both =
      rw
        (pop_shifted-append (x ∷ text a ∷ text (a ++ b) ∷ m ∷ ms) (text (c ++ d) ∷ []) (text c)
          (length ms + 4) 0 (omega arith))
        (unfold pop_shifted in refl)

-- Take a message x, a, b, m, …, c, d with texts a, b, c and d and no other text. Its fillers are 1 and
-- the index of c. If the set gives the index of c first, x is lost and a stays as a text of its own.
pub squash_descending :
    (walk : List ℕ → List ℕ) (x m : Component) (ms : Parsed) (a b c d : Str)
    → NoText x
    → NoText m
    → All NoText ms
    → walk (1 ∷ (length ms + 4) ∷ []) ≡ (length ms + 4) ∷ 1 ∷ []
    → squash_nearby_strings walk (x ∷ text a ∷ text b ∷ m ∷ ms ++ text c ∷ text d ∷ [])
      ≡ ok (text a ∷ text (a ++ b) ∷ m ∷ ms ++ text (c ++ d) ∷ [])
unfolding squash_nearby_strings
squash_descending walk x m ms a b c d hx hm hms order =
    ap (λ (g : Parsed × List ℕ). pop_all 0 (walk g.1) g.0) (glue_all x m ms a b c d hx hm hms)
    ∙ ap (λ (f : List ℕ). pop_all 0 f (x ∷ text a ∷ text (a ++ b) ∷ m ∷ ms ++ glued_tail c d)) order
    ∙ pop_both x m ms a b c d hx hm hms
