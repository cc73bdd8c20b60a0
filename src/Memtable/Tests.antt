-- ===== src/Memtable/Tests.antt =====
-- Memtable of heraclitus-memtable/src/lib.rs with two episodes, one a reply to the other.
use crates.Prelude.{ℕ, ◌+◌, ◌-◌, ◌≤◌, ◌≡◌, refl, arith, List, [], ◌∷◌, ◌++◌, some, drop, length}
use crates.Prelude.{All}
use crates.Memtable.{
  Episode, Memtable, new, apply, prune_below, clear_entries, clear_adjacency, get, children_of,
}
use crates.Prelude.Search.{In, retain}
use crates.Memtable.Adjacency.{named_by, IsFresh}
use crates.Memtable.Overlay.{
  IsReached, created, applied, applied_meanwhile, pruned, clear_begun, clear_ended,
  children_of-named_by,
}
use crates.Memtable.Visibility.{get-apply}

abbrev question : Episode
question = record { id = 7; parents = []; content = 1 ∷ [] }

abbrev answer : Episode
answer = record { id = 8; parents = 7 ∷ []; content = 2 ∷ [] }

abbrev asked : Memtable
asked = apply 1 question (new 2)

abbrev answered : Memtable
answered = apply 2 answer asked

replies : children_of 7 answered ≡ 8 ∷ []
unfolding children_of apply
replies = refl

-- Nothing is left of the reply once it is indexed.
forgotten : children_of 7 (prune_below 2 answered) ≡ []
unfolding children_of apply prune_below retain
forgotten = refl

get-apply_example :
    (get 8 (apply 2 answer asked) ≡ some (2, answer))
    × ((apply 2 answer asked).entries
        ≡ drop (length asked.entries + 1 - 2) (asked.entries ++ ((2, answer) ∷ [])))
    × (length (apply 2 answer asked).entries ≤ 2)
unfolding apply
get-apply_example = get-apply 2 answer asked (omega arith)

answer_is_new : IsFresh 8 asked.entries
unfolding apply
answer_is_new = (λ h. absurd (omega arith), tt)

answered-IsReached : IsReached 2 0 [] answered
answered-IsReached =
    applied [] asked 2 answer answer_is_new (applied [] (new 2) 1 question tt created)

pruned-IsReached : IsReached 2 0 [] (prune_below 1 answered)
pruned-IsReached = pruned 0 [] answered 1 answered-IsReached

-- The reply comes between the two statements of a clear, and then the reply to it.
abbrev doubt : Episode
doubt = record { id = 9; parents = 7 ∷ (8 ∷ []); content = [] }

abbrev cleared : Memtable
cleared = apply 3 doubt (clear_adjacency (apply 2 answer (clear_entries asked)))

cleared-IsReached : IsReached 2 0 (8 ∷ []) cleared
unfolding apply
cleared-IsReached =
    applied (8 ∷ []) (clear_adjacency (apply 2 answer (clear_entries asked))) 3 doubt
      (λ h. absurd (omega arith), tt)
      (clear_ended 0 (8 ∷ []) (apply 2 answer (clear_entries asked)) (
        applied_meanwhile 0 [] (clear_entries asked) 2 answer tt
          (clear_begun 0 [] asked (applied [] (new 2) 1 question tt created))))

-- The reply is in the tail and names the question, and is not among its children.
reply_lost : (children_of 7 cleared ≡ 9 ∷ []) × (get 8 cleared ≡ some (2, answer))
unfolding children_of apply get
reply_lost = (refl, refl)

children_of-named_by_example :
    (lost : List ℕ) × (named_by 7 cleared.entries ≡ lost ++ children_of 7 cleared)
    × All (λ (c : ℕ). In c (8 ∷ [])) lost
children_of-named_by_example = children_of-named_by 2 (8 ∷ []) cleared cleared-IsReached 7
