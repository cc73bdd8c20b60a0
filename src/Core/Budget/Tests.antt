-- ===== src/Core/Budget/Tests.antt =====
-- The memory budget of heraclitus-core/src/runtime.rs: 100 bytes that a task overdraws.
use crates.Prelude.{ℕ, ◌+◌, ◌≤◌, ◌≡◌, ◌↔◌, refl, arith, true}
use crates.Core.Budget.{MemoryBudget, budget, try_reserve, release}
use crates.Core.Budget.Cap.{IsHeld, created, granted, refused, returned, try_reserve-IsHeld}

abbrev first : MemoryBudget
first = (try_reserve 64 (budget 100) 60).0

abbrev second : MemoryBudget
second = (try_reserve 64 first 60).0

abbrev third : MemoryBudget
third = (try_reserve 64 (release second 20) 60).0

third_used : third.used_bytes ≡ 100
unfolding try_reserve release
third_used = refl

third-IsHeld : IsHeld 64 100 third 100
unfolding try_reserve release
third-IsHeld = granted (release second 20) 40 60 refl (
    returned second 60 20 (omega arith)
      (refused first 60 60 refl (granted (budget 100) 0 60 refl created)))

try_reserve-IsHeld_example :
    (third.used_bytes ≡ 100)
    × (100 ≤ 100)
    × ((bytes : ℕ) → ((try_reserve 64 third bytes).1 ≡ true) ↔ (100 + bytes ≤ 100))
try_reserve-IsHeld_example = try_reserve-IsHeld 64 100 third 100 (omega arith) third-IsHeld
