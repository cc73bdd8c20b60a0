-- ===== src/V6/Lifecycle.antt =====
-- The life of the catalogue of heraclitus-log/src/v6/manifest.rs, collected by
-- heraclitus-log/src/v6/gc.rs: the operations as steps, in any order.
pub mod Tests
use crates.Prelude.{ℕ, String, ◌≡◌, ◌⊎◌, inl, inr, refl, ◌∙◌, sym, Bool}
use crates.Prelude.{List, []}
use crates.Prelude.Search.{In}
use crates.Prelude.Unique.{IsUnique}
use crates.Prelude.Pointwise.{Pointwise}
use crates.Core.Runtime.{DerivedArtifactRef, SegmentDescriptorV2, DatabaseManifest, has_authority}
use crates.V6.Error.{V6Result, V6Result-cases, ok, err}
use crates.V6.Manifest.{
  register_sealed_raw, record_pack, quarantine_generation, attach_sidecar, attach_parquet,
  set_legal_hold, set_verified_copies,
}
use crates.V6.Receipts.{FooterV6, PackReceipt}
use crates.V6.Manifest.Catalogue.{IsServed, IsHealthy, IsCatalogue}
use crates.V6.Manifest.Outcome.{quarantine_generation-IsCatalogue}
use crates.V6.Manifest.Pack.{record_pack-IsCatalogue}
use crates.V6.Manifest.Writes.{
  register_sealed_raw-IsCatalogue, attach_sidecar-IsCatalogue, attach_parquet-IsCatalogue,
  set_legal_hold-IsCatalogue, set_verified_copies-IsCatalogue,
}
use crates.V6.Gc.{GcOptions, GcPlan, plan_gc, assert_gc_invariant, apply_gc}
use crates.V6.Pins.{PinRegistry}
use crates.V6.Gc.Check.{plan_gc-assert_gc_invariant}
use crates.V6.Gc.Apply.{IsTrimmed, apply_gc-IsCatalogue}

-- One operation on the catalogue. A `record_pack` that fails is no step: the engine puts the
-- manifest of before back (heraclitus-log/src/v6/engine.rs).
pub data Step : DatabaseManifest → DatabaseManifest → Type 0 where
  sealed :
      (m : DatabaseManifest) (id : ℕ) (footer : FooterV6) (codec : ℕ) (location : String) (size : ℕ)
      (digest : List ℕ) (now_hlc : ℕ)
      → Step m (register_sealed_raw m id footer codec location size digest now_hlc).0
  packed :
      (m : DatabaseManifest) (receipt : PackReceipt) (location : String) (now_hlc : ℕ)
      → (record_pack m receipt location now_hlc).1 ≡ ok tt
      → Step m (record_pack m receipt location now_hlc).0
  quarantined :
      (m : DatabaseManifest) (id n now_hlc : ℕ) → Step m (quarantine_generation m id n now_hlc).0
  indexed :
      (m : DatabaseManifest) (id : ℕ) (a : DerivedArtifactRef) → Step m (attach_sidecar m id a).0
  exported :
      (m : DatabaseManifest) (id : ℕ) (a : DerivedArtifactRef) → Step m (attach_parquet m id a).0
  held : (m : DatabaseManifest) (id : ℕ) (hold : Bool) → Step m (set_legal_hold m id hold).0
  copied : (m : DatabaseManifest) (id n copies : ℕ) → Step m (set_verified_copies m id n copies).0
  collected : (m : DatabaseManifest) (plan : GcPlan) → Step m (apply_gc m plan).0

-- The catalogues that the operations make from an empty one.
pub data IsReachable : DatabaseManifest → Type 0 where
  empty : (m : DatabaseManifest) → m.segments_v2 ≡ [] → IsReachable m
  after : (m m' : DatabaseManifest) → IsReachable m → Step m m' → IsReachable m'

Step-IsCatalogue : (m m' : DatabaseManifest) → Step m m' → IsCatalogue m → IsCatalogue m'
Step-IsCatalogue _ _ (sealed m id footer codec location size digest now_hlc) w =
    register_sealed_raw-IsCatalogue m id footer codec location size digest now_hlc w
Step-IsCatalogue _ _ (packed m receipt location now_hlc h) w =
    record_pack-IsCatalogue m receipt location now_hlc w h
Step-IsCatalogue _ _ (quarantined m id n now_hlc) w =
    quarantine_generation-IsCatalogue m id n now_hlc w
Step-IsCatalogue _ _ (indexed m id a) w = attach_sidecar-IsCatalogue m id a w
Step-IsCatalogue _ _ (exported m id a) w = attach_parquet-IsCatalogue m id a w
Step-IsCatalogue _ _ (held m id hold) w = set_legal_hold-IsCatalogue m id hold w
Step-IsCatalogue _ _ (copied m id n copies) w = set_verified_copies-IsCatalogue m id n copies w
Step-IsCatalogue _ _ (collected m plan) w = apply_gc-IsCatalogue m plan w

-- Whatever operations have made a catalogue (with a failed `record_pack` rolled back), each segment
-- has an id of its own, is coherent as `check_segment_coherence` asks, and is served from a
-- canonical authority if it has one at all.
pub IsReachable-IsCatalogue : (m : DatabaseManifest) → IsReachable m → IsCatalogue m
IsReachable-IsCatalogue _ (empty m e) = record {
  unique = rw e tt;
  healthy = λ s i. absurd (rw e at i);
}
IsReachable-IsCatalogue _ (after m m' r s) = Step-IsCatalogue m m' s (IsReachable-IsCatalogue m r)

-- On every reachable catalogue a collection succeeds: `apply_gc` takes the plan that `plan_gc`
-- makes, for any readers and options.
pub apply_gc-plan_gc :
    (m : DatabaseManifest) (pins : PinRegistry) (opts : GcOptions)
    → IsReachable m
    → (apply_gc m (plan_gc m pins opts)).1 ≡ ok tt
unfolding apply_gc
apply_gc-plan_gc m pins opts r =
    rw (apply_gc, plan_gc-assert_gc_invariant m pins opts (IsReachable-IsCatalogue m r)) refl
