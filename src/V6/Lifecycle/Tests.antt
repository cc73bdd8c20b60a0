-- ===== src/V6/Lifecycle/Tests.antt =====
-- A segment is sealed, packed and collected.
use crates.Prelude.{◌≡◌, refl, ap, sym}
use crates.Prelude.{[], ◌∷◌}
use crates.Core.Runtime.{DatabaseManifest}
use crates.V6.Error.{ok}
use crates.V6.Samples.{no_segments, one_footer, one_receipt, late}
use crates.V6.Manifest.{record_pack}
use crates.V6.Manifest.Catalogue.{IsCatalogue}
use crates.V6.Manifest.Tests.{sealed_manifest, register_runs, pack_runs}
use crates.V6.Gc.{plan_gc, apply_gc}
use crates.V6.Lifecycle.{Step, IsReachable, IsReachable-IsCatalogue, apply_gc-plan_gc}

sealed_manifest-IsReachable : IsReachable sealed_manifest
sealed_manifest-IsReachable =
    IsReachable.after no_segments sealed_manifest (IsReachable.empty no_segments refl) (
      rw (sym (ap (λ r. r.0) register_runs))
        (Step.sealed no_segments 1 one_footer 1 "seg-1.raw" 4096 (1 ∷ []) 0))

abbrev packed_manifest : DatabaseManifest
packed_manifest = (record_pack sealed_manifest one_receipt "seg-1.hrkp" 0).0

packed_manifest-IsReachable : IsReachable packed_manifest
packed_manifest-IsReachable =
    IsReachable.after sealed_manifest packed_manifest sealed_manifest-IsReachable
      (Step.packed sealed_manifest one_receipt "seg-1.hrkp" 0 pack_runs)

IsReachable-IsCatalogue_example : IsCatalogue packed_manifest
IsReachable-IsCatalogue_example =
    IsReachable-IsCatalogue packed_manifest packed_manifest-IsReachable

apply_gc-plan_gc_example : (apply_gc packed_manifest (plan_gc packed_manifest [] late)).1 ≡ ok tt
apply_gc-plan_gc_example = apply_gc-plan_gc packed_manifest [] late packed_manifest-IsReachable
