-- ===== src/V6/Gc/Tests.antt =====
-- A catalogue with one packed segment, on which the theorems on collection run.
use crates.Prelude.{map}
use crates.Core.Runtime.{SegmentDescriptorV2, default_retention}
use crates.V6.Samples.{packed}
use crates.Prelude.{◌≡◌, refl}
use crates.Prelude.{[], ◌∷◌}
use crates.Prelude.Search.{find, any, retain}
use crates.Prelude.Pointwise.{Pointwise}
use crates.Core.Runtime.{SegmentDescriptorV2}
use crates.V6.Error.{ok}
use crates.V6.Manifest.Tests.{one_manifest-IsCatalogue}
use crates.V6.Samples.{original, one_segment, one_manifest, late}
use crates.V6.Gc.{
  candidate, plan_gc, plan_segments, plan_generations, block_reason, assert_gc_invariant, apply_gc,
}
use crates.V6.Pins.{PinRegistry}
use crates.V6.Gc.Check.{plan_gc-assert_gc_invariant}
use crates.V6.Gc.Apply.{IsTrimmed, apply_gc-IsTrimmed}

planned : (plan_gc one_manifest [] late).generations ≡ candidate one_segment original ∷ []
unfolding plan_gc plan_segments plan_generations block_reason any retain find
planned = refl

plan_gc-assert_gc_invariant_example :
    assert_gc_invariant one_manifest (plan_gc one_manifest [] late) ≡ ok tt
plan_gc-assert_gc_invariant_example =
    plan_gc-assert_gc_invariant one_manifest [] late one_manifest-IsCatalogue

applied : (apply_gc one_manifest (plan_gc one_manifest [] late)).1 ≡ ok tt
unfolding apply_gc assert_gc_invariant plan_gc plan_segments plan_generations block_reason any
    retain find
applied = refl

apply_gc-IsTrimmed_example :
    Pointwise IsTrimmed
      (one_segment ∷ [])
      (apply_gc one_manifest (plan_gc one_manifest [] late)).0.segments_v2
apply_gc-IsTrimmed_example = apply_gc-IsTrimmed one_manifest (plan_gc one_manifest [] late) applied

abbrev one_reader : PinRegistry
one_reader = record { segment_id = 1; generation = 0; readers = 1 } ∷ []

-- Two superseded generations with two verified copies each, of which two are to be kept.
abbrev guarded : SegmentDescriptorV2
guarded = record one_segment {
  active_generation = 2;
  generations =
      record original { verified_copies = 2 }
      ∷ (record original { generation = 1; verified_copies = 2 }
          ∷ (record packed { generation = 2 } ∷ []));
  retention = record default_retention { min_verified_copies = 2 };
}

-- Each of the two vouches for the other, and the plan takes both: one copy is left of two.
both_planned :
    map
      (λ c. c.generation)
      (plan_gc (record one_manifest { segments_v2 = guarded ∷ [] }) [] late).generations
    ≡ 0 ∷ 1 ∷ []
unfolding plan_gc plan_segments plan_generations block_reason any retain find
both_planned = refl
