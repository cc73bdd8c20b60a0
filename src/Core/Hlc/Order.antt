-- ===== src/Core/Hlc/Order.antt =====
-- The timestamps of the clock grow, whatever the threads and the wall clock do.
use crates.Prelude.{ℕ, ◌-◌, ◌≤◌, ◌<◌, ◌^◌, ◌≡◌, inl, inr, arith, ◌==◌}
use crates.Prelude.{List, [], ◌∷◌, true, Bool-cases}
use crates.Core.Hlc.{Hlc, Access, attempted, observed, attempt, observe, next_timestamp, run}

-- Each number is above the one before it, and the first is above `lo`.
abbrev pub IsIncreasing : ℕ → List ℕ → Type 0
IsIncreasing lo [] = Unit {0}
IsIncreasing lo (t ∷ ts) = (lo < t) × IsIncreasing t ts

IsIncreasing-le : (lo hi : ℕ) (ts : List ℕ) → lo ≤ hi → IsIncreasing hi ts → IsIncreasing lo ts
IsIncreasing-le lo hi [] h i = tt
IsIncreasing-le lo hi (t ∷ ts) h (k, i) = (omega arith, i)

next_timestamp-le : (physical_now loaded : ℕ) → loaded ≤ next_timestamp physical_now loaded
unfolding next_timestamp
next_timestamp-le physical_now loaded = ground arith

next_timestamp-lt :
    (physical_now loaded : ℕ)
    → next_timestamp physical_now loaded < 2 ^ 64 - 1
    → loaded < next_timestamp physical_now loaded
unfolding next_timestamp
next_timestamp-lt physical_now loaded h = ground arith

run-le : (as' : List Access) (hlc : Hlc) → hlc.last ≤ (run as' hlc).0.last
unfolding run attempt observe
run-le [] hlc = omega arith
run-le (attempted p l ∷ as') hlc = elim (Bool-cases (hlc.last == l)) [
  | inl t ↦
      ground (arith, t, next_timestamp-le p l, run-le as' (record { last = next_timestamp p l }))
  | inr f ↦ ground (arith, f, run-le as' hlc)
]
run-le (observed r ∷ as') hlc = omega (arith, run-le as' (observe hlc r))

-- In any interleaving of rounds of `now` and calls of `observe`, with any readings of the wall
-- clock, the timestamps that `now` returns are strictly increasing and above the clock's value at
-- the start, as long as the clock has not reached the largest u64.
pub run-IsIncreasing :
    (as' : List Access) (hlc : Hlc)
    → (run as' hlc).0.last < 2 ^ 64 - 1
    → IsIncreasing hlc.last (run as' hlc).1
unfolding run attempt observe
run-IsIncreasing [] hlc h = tt
run-IsIncreasing (attempted p l ∷ as') hlc h = elim (Bool-cases (hlc.last == l)) [
  | inl t ↦
      rw (t, run, attempt)
        (won t (rw (t, run, attempt) at h)
          (run-IsIncreasing as' (record { last = next_timestamp p l })))
  | inr f ↦ rw (f, run, attempt) (run-IsIncreasing as' hlc (rw (f, run, attempt) at h))
]
  where
    won :
        (hlc.last == l) ≡ true
        → (run as' (record { last = next_timestamp p l })).0.last < 2 ^ 64 - 1
        → ((run as' (record { last = next_timestamp p l })).0.last < 2 ^ 64 - 1
            → IsIncreasing (next_timestamp p l) (run as' (record { last = next_timestamp p l })).1)
        → IsIncreasing hlc.last
            (next_timestamp p l ∷ (run as' (record { last = next_timestamp p l })).1)
    won t k ih =
        let installed : Hlc = record { last = next_timestamp p l } in
        (ground (arith, t, next_timestamp-lt p l, run-le as' installed, k), ih k)
run-IsIncreasing (observed r ∷ as') hlc h =
    IsIncreasing-le hlc.last (observe hlc r).last _ (omega arith)
      (run-IsIncreasing as' (observe hlc r) h)
