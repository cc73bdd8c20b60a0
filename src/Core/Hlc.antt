-- ===== src/Core/Hlc.antt =====
-- heraclitus-core/src/hlc.rs: the hybrid logical clock. The wall clock is read outside and is an
-- argument, in milliseconds. A thread in `now` loads the clock and then tries to replace what it
-- has loaded, and other threads may come in between: a round of its loop is a step of its own.
pub mod Order
pub mod Tests
use crates.Prelude.{ℕ, ◌+◌, ◌-◌, ◌*◌, ◌/◌, ◌%◌, ◌^◌, max, ltb, ◌==◌, if◌then◌else◌}
use crates.Prelude.{List, [], ◌∷◌, Option, none, some}

pub record Hlc : Type 0 where
  pub last : ℕ

abbrev pub new : Hlc
new = record { last = 0 }

-- `u64::saturating_add(1)`.
abbrev saturating_inc : ℕ → ℕ
saturating_inc n = if ltb n (2 ^ 64 - 1) then n + 1 else n

-- What a round of `now` wants to install over the value that it has loaded.
unfoldable pub next_timestamp : ℕ → ℕ → ℕ
next_timestamp physical_now loaded =
    let phys = physical_now * 2 ^ 16 % 2 ^ 64 in
    if ltb loaded phys then phys else saturating_inc loaded

-- `compare_exchange` of a round that has loaded `loaded`, and the timestamp where it succeeds.
unfoldable pub attempt : Hlc → ℕ → ℕ → Hlc × Option ℕ
unfolding next_timestamp
attempt hlc physical_now loaded =
    if hlc.last == loaded
    then (
      record { last = next_timestamp physical_now loaded },
      some (next_timestamp physical_now loaded),
    )
    else (hlc, none)

unfoldable pub observe : Hlc → ℕ → Hlc
observe hlc remote = record { last = max hlc.last remote }

unfoldable pub skew_ms : Hlc → ℕ → ℕ
skew_ms hlc physical_now = hlc.last / 2 ^ 16 - physical_now

-- A step of some thread on the shared clock.
pub data Access : Type 0 where
  attempted : ℕ → ℕ → Access
  observed : ℕ → Access

abbrev issued : Option ℕ → List ℕ → List ℕ
issued none ts = ts
issued (some t) ts = t ∷ ts

-- The clock after the steps, and the timestamps that `now` has returned, in order.
unfoldable pub run : List Access → Hlc → Hlc × List ℕ
unfolding attempt observe
run [] hlc = (hlc, [])
run (attempted physical_now loaded ∷ as') hlc =
    let (hlc', t) = attempt hlc physical_now loaded in
    let (last, ts) = run as' hlc' in (last, issued t ts)
run (observed remote ∷ as') hlc = run as' (observe hlc remote)
