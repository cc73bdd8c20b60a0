-- ===== src/Memtable.antt =====
-- heraclitus-memtable/src/lib.rs: the tail of the log that views have not indexed. An event id is a
-- number, and of an episode its id and parents are kept, and the rest as content. `apply` and
-- `prune_below` hold the write lock of the entries throughout; `clear` gives it back before it clears
-- the adjacency map, so it is two steps. The adjacency map has its entries in any order.
pub mod Adjacency
pub mod Lost
pub mod Overlay
pub mod Visibility
mod Tests
use crates.Prelude.{
  ℕ, zero, suc, ◌+◌, ltb, leb, ◌==◌, not, if◌then◌else◌, Bool, List, [], ◌∷◌, ◌++◌,
}
use crates.Prelude.{Option, none, some, length}
use crates.Prelude.Search.{retain}

pub record Episode : Type 0 where
  pub id : ℕ
  pub parents : List ℕ
  pub content : List ℕ

pub record Memtable : Type 0 where
  pub cap : ℕ
  pub entries : List (ℕ × Episode)
  pub adjacency : List (ℕ × List ℕ)

abbrev pub new : ℕ → Memtable
new cap = record { cap = cap; entries = []; adjacency = [] }

-- `DashMap::get`.
unfoldable pub row : ℕ → List (ℕ × List ℕ) → Option (List ℕ)
row id [] = none
row id ((parent, children) ∷ rows) =
    let rest = row id rows in if parent == id then some children else rest

-- `adjacency.entry(parent).or_default().push(child)`.
unfoldable pub add_child : ℕ → ℕ → List (ℕ × List ℕ) → List (ℕ × List ℕ)
add_child parent child [] = (parent, child ∷ []) ∷ []
add_child parent child ((p, children) ∷ rows) =
    let rest = add_child parent child rows in
    if p == parent then (p, children ++ (child ∷ [])) ∷ rows else (p, children) ∷ rest

unfoldable pub add_children : List ℕ → ℕ → List (ℕ × List ℕ) → List (ℕ × List ℕ)
unfolding add_child
add_children [] child rows = rows
add_children (parent ∷ parents) child rows =
    add_children parents child (add_child parent child rows)

-- A row without the child, and away where nothing is left of it.
unfoldable pub forget_child : ℕ → ℕ → List (ℕ × List ℕ) → List (ℕ × List ℕ)
forget_child parent child [] = []
forget_child parent child ((p, children) ∷ rows) =
    let rest = forget_child parent child rows in
    let left = retain (λ (c : ℕ). not (c == child)) children in
    if p == parent
    then if length left == 0 then rows else (p, left) ∷ rows
    else (p, children) ∷ rest

unfoldable pub forget_children : List ℕ → ℕ → List (ℕ × List ℕ) → List (ℕ × List ℕ)
unfolding forget_child
forget_children [] child rows = rows
forget_children (parent ∷ parents) child rows =
    forget_children parents child (forget_child parent child rows)

unfoldable pub forget_adjacency : Episode → List (ℕ × List ℕ) → List (ℕ × List ℕ)
unfolding forget_children
forget_adjacency evicted rows = forget_children evicted.parents evicted.id rows

-- The loop of `apply`: the oldest entries go while there are more than `cap`.
unfoldable pub evict_over :
    ℕ → List (ℕ × Episode) → List (ℕ × List ℕ) → List (ℕ × Episode) × List (ℕ × List ℕ)
unfolding forget_adjacency
evict_over cap [] rows = ([], rows)
evict_over cap ((lsn, e) ∷ entries) rows =
    let rest = evict_over cap entries (forget_adjacency e rows) in
    if ltb cap (length ((lsn, e) ∷ entries)) then rest else ((lsn, e) ∷ entries, rows)

-- The loop of `prune_below`: the oldest entries go while they are at or below the watermark.
unfoldable pub evict_below :
    ℕ → List (ℕ × Episode) → List (ℕ × List ℕ) → List (ℕ × Episode) × List (ℕ × List ℕ)
unfolding forget_adjacency
evict_below watermark [] rows = ([], rows)
evict_below watermark ((lsn, e) ∷ entries) rows =
    let rest = evict_below watermark entries (forget_adjacency e rows) in
    if leb lsn watermark then rest else ((lsn, e) ∷ entries, rows)

-- `apply` behind its loop over the parents, which left the rows.
abbrev pub publish : ℕ → Episode → List (ℕ × List ℕ) → Memtable → Memtable
unfolding evict_over
publish lsn episode rows m =
    let left = evict_over m.cap (m.entries ++ ((lsn, episode) ∷ [])) rows in
    record { cap = m.cap; entries = left.0; adjacency = left.1 }

unfoldable pub apply : ℕ → Episode → Memtable → Memtable
unfolding add_children publish
apply lsn episode m = publish lsn episode (add_children episode.parents episode.id m.adjacency) m

unfoldable pub prune_below : ℕ → Memtable → Memtable
unfolding evict_below
prune_below watermark m =
    let left = evict_below watermark m.entries m.adjacency in
    record { cap = m.cap; entries = left.0; adjacency = left.1 }

-- The first statement of `clear`, under the write lock.
abbrev pub clear_entries : Memtable → Memtable
clear_entries m = record { cap = m.cap; entries = []; adjacency = m.adjacency }

-- The second statement of `clear`, without the write lock.
abbrev pub clear_adjacency : Memtable → Memtable
clear_adjacency m = record { cap = m.cap; entries = m.entries; adjacency = [] }

unfoldable pub len : Memtable → ℕ
len m = length m.entries

unfoldable pub is_empty : Memtable → Bool
unfolding len
is_empty m = len m == 0

abbrev pub default_row : Option (List ℕ) → List ℕ
default_row none = []
default_row (some children) = children

unfoldable pub children_of : ℕ → Memtable → List ℕ
unfolding row
children_of id m = default_row (row id m.adjacency)

-- `iter().rev().find(..)`: the last entry with the id.
unfoldable pub last_with : ℕ → List (ℕ × Episode) → Option (ℕ × Episode)
last_with id [] = none
last_with id ((lsn, e) ∷ entries) =
    let later = last_with id entries in
    elim later [ some x ↦ some x | none ↦ if e.id == id then some (lsn, e) else none ]

unfoldable pub get : ℕ → Memtable → Option (ℕ × Episode)
unfolding last_with
get id m = last_with id m.entries
