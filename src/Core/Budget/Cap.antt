-- ===== src/Core/Budget/Cap.antt =====
-- heraclitus-core/src/runtime.rs: what a memory budget counts, against the bytes that its task holds.
use crates.Prelude.{ℕ, ◌+◌, ◌-◌, ◌^◌, ◌≤◌, ◌<◌, ◌≡◌, ◌↔◌, refl, arith, true, false}
use crates.Core.Budget.{MemoryBudget, budget, try_reserve, release}

-- A budget and the bytes that its task holds: those it was granted and has not given back. A task
-- gives back no more than it holds.
pub data IsHeld (usize_bits cap : ℕ) : MemoryBudget → ℕ → Type 0 where
  created : IsHeld usize_bits cap (budget cap) 0
  granted :
      (b : MemoryBudget) (held bytes : ℕ)
      → (try_reserve usize_bits b bytes).1 ≡ true
      → IsHeld usize_bits cap b held
      → IsHeld usize_bits cap (try_reserve usize_bits b bytes).0 (held + bytes)
  refused :
      (b : MemoryBudget) (held bytes : ℕ)
      → (try_reserve usize_bits b bytes).1 ≡ false
      → IsHeld usize_bits cap b held
      → IsHeld usize_bits cap (try_reserve usize_bits b bytes).0 held
  returned :
      (b : MemoryBudget) (held bytes : ℕ)
      → bytes ≤ held
      → IsHeld usize_bits cap b held
      → IsHeld usize_bits cap (release b bytes) (held - bytes)

-- The counter is what the task holds.
abbrev Counts : ℕ → MemoryBudget → ℕ → Type 0
Counts cap b held = (b.used_bytes ≡ held) × (held ≤ cap) × (b.allowed_bytes ≡ cap)

try_reserve-Counts :
    (w cap : ℕ) (b : MemoryBudget) (held bytes : ℕ)
    → Counts cap b held
    → (try_reserve w b bytes).1 ≡ true
    → Counts cap (try_reserve w b bytes).0 (held + bytes)
unfolding try_reserve
try_reserve-Counts w cap b held bytes (u, h, c) e = ground arith

try_reserve-refused :
    (w : ℕ) (b : MemoryBudget) (bytes : ℕ)
    → (try_reserve w b bytes).1 ≡ false
    → (try_reserve w b bytes).0 ≡ b
unfolding try_reserve
try_reserve-refused w b bytes e = ground arith

try_reserve_iff :
    (w cap : ℕ) (b : MemoryBudget) (held bytes : ℕ)
    → cap < 2 ^ w
    → Counts cap b held
    → ((try_reserve w b bytes).1 ≡ true) ↔ (held + bytes ≤ cap)
unfolding try_reserve
try_reserve_iff w cap b held bytes small (u, h, c) = ground arith

IsHeld-Counts : (w cap : ℕ) (b : MemoryBudget) (held : ℕ) → IsHeld w cap b held → Counts cap b held
unfolding release
IsHeld-Counts w cap b held created = (refl, omega arith, refl)
IsHeld-Counts w cap b held (granted b' held' bytes e r) =
    try_reserve-Counts w cap b' held' bytes (IsHeld-Counts w cap b' held' r) e
IsHeld-Counts w cap b held (refused b' held' bytes e r) =
    rw (try_reserve-refused w b' bytes e) (IsHeld-Counts w cap b' held' r)
IsHeld-Counts w cap b held (returned b' held' bytes le r) =
    let (u, h, c) = IsHeld-Counts w cap b' held' r in (omega arith, omega arith, c)

-- Under a cap that is a usize, after any reservations, granted or refused, and any returns of bytes
-- that the task holds, the counter is the number of bytes that the task holds, this is at most the
-- cap, and a reservation is granted exactly where it does not take the task above the cap.
pub try_reserve-IsHeld :
    (w cap : ℕ) (b : MemoryBudget) (held : ℕ)
    → cap < 2 ^ w
    → IsHeld w cap b held
    → (b.used_bytes ≡ held)
      × (held ≤ cap)
      × ((bytes : ℕ) → ((try_reserve w b bytes).1 ≡ true) ↔ (held + bytes ≤ cap))
try_reserve-IsHeld w cap b held small r =
    let (u, h, c) = IsHeld-Counts w cap b held r in
    (u, h, (λ bytes. try_reserve_iff w cap b held bytes small (u, h, c)))
