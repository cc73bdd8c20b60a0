-- ===== src/V6/Pins.antt =====
-- heraclitus-log/src/v6/gc.rs, `PinRegistry`: the readers of a generation.
use crates.Prelude.{ℕ, ◌+◌, ◌-◌, ◌%◌, ◌^◌, Bool, ◌&&◌}
use crates.Prelude.{List, [], ◌∷◌, none, some, ◌==◌, if◌then◌else◌}
use crates.Prelude.Search.{find, any, modify_first}

-- Active readers for each segment and generation. The source holds it in a `HashMap`.
pub record Pin : Type 0 where
  pub segment_id : ℕ
  pub generation : ℕ
  pub readers : ℕ

abbrev pub PinRegistry : Type 0
PinRegistry = List Pin

abbrev pub is_key : ℕ → ℕ → Pin → Bool
is_key segment_id generation p = p.segment_id == segment_id && p.generation == generation

unfoldable pub count : PinRegistry → ℕ → ℕ → ℕ
count pins segment_id generation = elim (find (is_key segment_id generation) pins) [
  | none ↦ 0
  | some p ↦ p.readers
]

-- The `+= 1` is that of a u32.
unfoldable pub pin : PinRegistry → ℕ → ℕ → PinRegistry
pin pins segment_id generation =
    if any (is_key segment_id generation) pins
    then modify_first (is_key segment_id generation)
        (λ p. record p { readers = (p.readers + 1) % 2 ^ 32 }) pins
    else record { segment_id = segment_id; generation = generation; readers = 1 } ∷ pins

-- `drop` of a guard: the count goes down, and an entry at 0 goes away.
unfoldable pub unpin : PinRegistry → ℕ → ℕ → PinRegistry
unpin [] segment_id generation = []
unpin (p ∷ pins) segment_id generation =
    let rest = unpin pins segment_id generation in
    if is_key segment_id generation p
    then (if p.readers - 1 == 0 then pins else record p { readers = p.readers - 1 } ∷ pins)
    else p ∷ rest
