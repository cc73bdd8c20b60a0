-- ===== src/V6/SegmentCheck.antt =====
-- heraclitus-log/src/v6/manifest.rs, `check_segment_coherence`.
pub mod Numbers
pub mod Coherence
use crates.Prelude.{ℕ, zero, suc, ◌+◌, ◌-◌, ◌^◌, Bool, true, false, not}
use crates.Prelude.{List, [], ◌∷◌, map, Option, none, some, ltb, leb, ◌==◌, if◌then◌else◌, length}
use crates.Core.Runtime.{PhysicalGeneration, SegmentDescriptorV2, active_of}
use crates.V6.Error.{
  V6Result, ok, err, ◌>>=◌, corrupt, lsn_reversed, hlc_reversed, too_many_records,
  duplicate_generations, active_missing,
}

-- `sort_unstable` and `dedup` of the standard library.
insert_number : ℕ → List ℕ → List ℕ
insert_number n [] = n ∷ []
insert_number n (x ∷ xs) = if leb n x then n ∷ x ∷ xs else x ∷ insert_number n xs

unfoldable pub sort_unstable : List ℕ → List ℕ
unfolding insert_number
sort_unstable [] = []
sort_unstable (x ∷ xs) = insert_number x (sort_unstable xs)

dedup_after : ℕ → List ℕ → List ℕ
dedup_after y [] = []
dedup_after y (x ∷ xs) = let rest = dedup_after x xs in if y == x then rest else x ∷ rest

pub dedup : List ℕ → List ℕ
unfolding dedup_after
dedup [] = []
dedup (x ∷ xs) = x ∷ dedup_after x xs

-- `u64::saturating_add(1)`.
abbrev saturating_inc : ℕ → ℕ
saturating_inc n = if ltb n (2 ^ 64 - 1) then n + 1 else n

check_ranges : SegmentDescriptorV2 → V6Result (Unit {0})
check_ranges s =
    if ltb 0 s.record_count
    then (if ltb s.last_lsn s.first_lsn
        then err (corrupt "hrkm segment descriptor" lsn_reversed)
        else if ltb s.max_hlc s.min_hlc
        then err (corrupt "hrkm segment descriptor" hlc_reversed)
        else if ltb (saturating_inc (s.last_lsn - s.first_lsn)) s.record_count
        then err (corrupt "hrkm segment descriptor" too_many_records)
        else ok tt)
    else ok tt

check_generations : SegmentDescriptorV2 → V6Result (Unit {0})
unfolding sort_unstable dedup active_of
check_generations s =
    let seen = map (λ g. g.generation) s.generations in
    if not (length (dedup (sort_unstable seen)) == length seen)
    then err (corrupt "hrkm segment descriptor" duplicate_generations)
    else elim (active_of s) [
      | some g ↦ ok tt
      | none ↦
          if 0 == length s.generations
          then ok tt
          else err (corrupt "hrkm segment descriptor" active_missing)
    ]

unfoldable pub check_segment_coherence : SegmentDescriptorV2 → V6Result (Unit {0})
unfolding check_ranges check_generations
check_segment_coherence s = do _ ← check_ranges s; check_generations s
