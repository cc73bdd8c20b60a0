-- ===== src/V6/SegmentCheck/Coherence.antt =====
-- `check_segment_coherence`: what a descriptor that passes is.
use crates.Prelude.{◌-◌, ◌≤◌, ◌<◌, ◌≡◌, ◌↔◌, ◌⊎◌, inl, inr, arith}
use crates.Prelude.{map, some, Option-cases, length}
use crates.Prelude.Unique.{IsUnique}
use crates.Core.Runtime.{PhysicalGeneration, SegmentDescriptorV2, active_of}
use crates.V6.Error.{V6Result-cases, ok}
use crates.V6.SegmentCheck.{
  saturating_inc, check_ranges, check_generations, check_segment_coherence,
}
use crates.V6.SegmentCheck.Numbers.{dedup-sort_unstable_lem}

-- The ranges of a descriptor agree with its count of records, its generations have distinct
-- numbers, and the active one is among them, if there is any.
pub record IsCoherent (s : SegmentDescriptorV2) : Type 0 where
  pub lsn : 0 < s.record_count → s.first_lsn ≤ s.last_lsn
  pub hlc : 0 < s.record_count → s.min_hlc ≤ s.max_hlc
  pub fits : 0 < s.record_count → s.record_count ≤ saturating_inc (s.last_lsn - s.first_lsn)
  pub unique : IsUnique (map (λ g. g.generation) s.generations)
  pub active : (length s.generations ≡ 0) ⊎ ((g : PhysicalGeneration) × (active_of s ≡ some g))

abbrev Ranged : SegmentDescriptorV2 → Type 0
Ranged s =
    0 < s.record_count
    → (s.first_lsn ≤ s.last_lsn)
      × (s.min_hlc ≤ s.max_hlc)
      × (s.record_count ≤ saturating_inc (s.last_lsn - s.first_lsn))

check_ranges_ok : (s : SegmentDescriptorV2) → (check_ranges s ≡ ok tt) ↔ Ranged s
unfolding check_ranges
check_ranges_ok s = ground arith

abbrev Numbered : SegmentDescriptorV2 → Type 0
Numbered s =
    IsUnique (map (λ g. g.generation) s.generations)
    × ((length s.generations ≡ 0) ⊎ ((g : PhysicalGeneration) × (active_of s ≡ some g)))

check_generations_ok : (s : SegmentDescriptorV2) → (check_generations s ≡ ok tt) ↔ Numbered s
unfolding check_generations
check_generations_ok s =
    let (to, back) = dedup-sort_unstable_lem (map (λ g. g.generation) s.generations) in
    elim (Option-cases (active_of s)) [
      | inl e ↦ ground (arith, e, to, back)
      | inr (g, e) ↦ ground (arith, e, to, back)
    ]

-- The check accepts exactly the coherent descriptors.
pub check_segment_coherence-IsCoherent :
    (s : SegmentDescriptorV2) → (check_segment_coherence s ≡ ok tt) ↔ IsCoherent s
unfolding check_segment_coherence
check_segment_coherence-IsCoherent s = (forward, backward)
  where
    both :
        check_segment_coherence s ≡ ok tt → (check_ranges s ≡ ok tt) × (check_generations s ≡ ok tt)
    both h = elim (V6Result-cases (check_ranges s)) [
      | inl (e, k) ↦ ground (arith, h, k)
      | inr (u, k) ↦ (k, rw (check_segment_coherence, k) at h)
    ]

    forward : check_segment_coherence s ≡ ok tt → IsCoherent s
    forward h =
        let (r, g) = both h in
        let ranged = (check_ranges_ok s).0 r in
        let (unique, active) = (check_generations_ok s).0 g in
        record {
          lsn = λ n. (ranged n).0;
          hlc = λ n. (ranged n).1;
          fits = λ n. (ranged n).2;
          unique = unique;
          active = active;
        }

    backward : IsCoherent s → check_segment_coherence s ≡ ok tt
    backward w =
        rw (check_segment_coherence, (check_ranges_ok s).1 (λ n. (w.lsn n, w.hlc n, w.fits n)))
          ((check_generations_ok s).1 (w.unique, w.active))
