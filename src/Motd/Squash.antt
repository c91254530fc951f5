-- ===== src/Motd/Squash.antt =====
-- mcstatus/motd/_simplifies.py: `squash_nearby_strings`. The order in which Python walks a set is a
-- parameter: it gives each element once, in an order that the language does not fix.
pub mod Laws
pub mod Order
use mcstatus_rust.Prelude.{
  ℕ, zero, suc, ◌+◌, ◌-◌, ◌≤◌, Bool, true, false, ◌&&◌, List, [], ◌∷◌, ◌++◌, length, ltb, leb,
  if◌then◌else◌, drop, take,
}
use mcstatus_rust.Prelude.Exec.{Result, ok, err, index_error, bind_result}
use mcstatus_rust.Motd.Components.{Component, formatting, color, web, translation, text, is_text}
use mcstatus_rust.Motd.Simplify.{Parsed}

-- `item + next_item` of two texts.
unfoldable pub glue : Component → Component → Component
glue (text a) (text b) = text (a ++ b)
glue c d = d

-- The first loop: `i` and the item there, as the round before left it. It gives the changed list
-- from `i` on and the fillers.
unfoldable pub glue_from : ℕ → Component → Parsed → Parsed × List ℕ
unfolding glue
glue_from i item [] = (item ∷ [], [])
glue_from i item (next_item ∷ rest) =
    let both = is_text item && is_text next_item in
    let more = glue_from (i + 1) (if both then glue item next_item else next_item) rest in
    (item ∷ more.0, if both then i ∷ more.1 else more.1)

-- `parsed.pop(index)`
unfoldable pub pop : ℕ → Parsed → Result Parsed
pop i [] = err index_error
pop zero (item ∷ rest) = ok rest
pop (suc i) (item ∷ rest) = bind_result (pop i rest) (λ r. ok (item ∷ r))

-- `parsed.pop(index_to_remove - already_removed)`; a negative index counts from the end.
unfoldable pub pop_shifted : ℕ → ℕ → Parsed → Result Parsed
unfolding pop
pop_shifted index removed parsed =
    if leb removed index
    then pop (index - removed) parsed
    else if ltb (length parsed) (removed - index)
    then err index_error
    else pop (length parsed - (removed - index)) parsed

-- The second loop, over the fillers in the order in which the set is walked.
unfoldable pub pop_all : ℕ → List ℕ → Parsed → Result Parsed
pop_all removed [] parsed = ok parsed
pop_all removed (index ∷ rest) parsed =
    bind_result (pop_shifted index removed parsed) (λ p. pop_all (removed + 1) rest p)

unfoldable pub squash_nearby_strings : (List ℕ → List ℕ) → Parsed → Result Parsed
squash_nearby_strings walk [] = pop_all 0 (walk []) []
squash_nearby_strings walk (item ∷ rest) =
    let (glued, fillers) = glue_from 0 item rest in pop_all 0 (walk fillers) glued
