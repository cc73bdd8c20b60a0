-- ===== src/Core/Budget.antt =====
-- heraclitus-core/src/runtime.rs: the memory budget of an execution context. A usize has
-- `usize_bits` bits.
pub mod Cap
pub mod Tests
use crates.Prelude.{ℕ, ◌+◌, ◌-◌, ◌^◌, Bool, true, false, ◌&&◌, ltb, leb, if◌then◌else◌}

pub record MemoryBudget : Type 0 where
  pub allowed_bytes : ℕ
  pub used_bytes : ℕ

abbrev pub budget : ℕ → MemoryBudget
budget allowed_bytes = record { allowed_bytes = allowed_bytes; used_bytes = 0 }

-- The result says whether the reservation was granted; the message of a refusal is left out.
unfoldable pub try_reserve : ℕ → MemoryBudget → ℕ → MemoryBudget × Bool
try_reserve usize_bits b bytes =
    let total = b.used_bytes + bytes in
    if ltb total (2 ^ usize_bits) && leb total b.allowed_bytes
    then (record b { used_bytes = total }, true)
    else (b, false)

unfoldable pub release : MemoryBudget → ℕ → MemoryBudget
release b bytes = record b { used_bytes = b.used_bytes - bytes }
