-- ===== src/V6/Manifest/Tests.antt =====
-- The theorems on the catalogue at one segment of ten records.
use crates.Prelude.{◌≡◌, ◌↔◌, inl, inr, refl, arith}
use crates.Prelude.{[], ◌∷◌, some}
use crates.Prelude.Unique.{IsUnique}
use crates.Prelude.Search.{In, find, any, retain, modify_first}
use crates.Prelude.Bytes.{bytes_eq}
use crates.Core.Runtime.{SegmentDescriptorV2, DatabaseManifest, active_of, segment}
use crates.Core.Runtime.Order.{Behind}
use crates.V6.Error.{ok}
use crates.V6.Samples.{
  packed, one_segment, one_manifest, no_segments, one_footer, one_receipt, one_artifact,
}
use crates.V6.Manifest.{
  sealed_descriptor, register_sealed_raw, record_pack, quarantine_generation, attach_parquet,
}
use crates.V6.SegmentCheck.{check_segment_coherence}
use crates.V6.SegmentCheck.Coherence.{IsCoherent, check_segment_coherence-IsCoherent}
use crates.V6.Manifest.Catalogue.{IsHealthy, IsCatalogue}
use crates.V6.Manifest.Pack.{IsPacked, record_pack-IsPacked}
use crates.V6.Manifest.Outcome.{quarantine_generation-IsFallback}
use crates.V6.Manifest.Quarantine.{IsFallback}
use crates.V6.Manifest.Export.{Exported, attach_parquet-Exported}

pub one_manifest-IsCatalogue : IsCatalogue one_manifest
unfolding active_of find check_segment_coherence
one_manifest-IsCatalogue = record { unique = ((λ i. i), tt); healthy = healthy }
  where
    healthy : (s : SegmentDescriptorV2) → In s (one_segment ∷ []) → IsHealthy s
    healthy s (inl e) =
        rw e
          ((check_segment_coherence-IsCoherent one_segment).0 refl, (λ _ _ _. (packed, refl, refl)))
    healthy s (inr m) = absurd m

check_segment_coherence-IsCoherent_example :
    (check_segment_coherence one_segment ≡ ok tt) ↔ IsCoherent one_segment
check_segment_coherence-IsCoherent_example = check_segment_coherence-IsCoherent one_segment

-- The catalogue after the seal.
abbrev pub sealed_manifest : DatabaseManifest
sealed_manifest = record no_segments {
  segments_v2 = sealed_descriptor 1 one_footer 1 "seg-1.raw" 4096 (1 ∷ []) 0 ∷ [];
  cumulative_watermark = 10;
}

pub register_runs :
    register_sealed_raw no_segments 1 one_footer 1 "seg-1.raw" 4096 (1 ∷ []) 0
    ≡ (sealed_manifest, ok tt)
unfolding register_sealed_raw segment find any
register_runs = refl

pub pack_runs : (record_pack sealed_manifest one_receipt "seg-1.hrkp" 0).1 ≡ ok tt
unfolding record_pack find bytes_eq check_segment_coherence modify_first
pack_runs = refl

record_pack-IsPacked_example :
    (d s : SegmentDescriptorV2) × (segment sealed_manifest 1 ≡ some d)
    × (segment (record_pack sealed_manifest one_receipt "seg-1.hrkp" 0).0 1 ≡ some s)
    × IsPacked one_receipt d s
    × IsCoherent s
record_pack-IsPacked_example =
    record_pack-IsPacked sealed_manifest one_receipt "seg-1.hrkp" 0 pack_runs

quarantine_runs : (quarantine_generation one_manifest 1 1 5).1 ≡ ok 0
unfolding quarantine_generation find retain modify_first
quarantine_runs = refl

quarantine_generation-IsFallback_example :
    (s : SegmentDescriptorV2) × (segment (quarantine_generation one_manifest 1 1 5).0 1 ≡ some s)
    × IsFallback 1 0 one_segment s
unfolding segment find
quarantine_generation-IsFallback_example =
    quarantine_generation-IsFallback one_manifest 1 1 5 0 one_segment one_manifest-IsCatalogue refl
      quarantine_runs

-- Two segments from LSN 0 on, none exported.
abbrev from_zero : DatabaseManifest
from_zero = record one_manifest {
  segments_v2 =
      record one_segment { first_lsn = 0; last_lsn = 9 }
      ∷ (record one_segment { segment_id = 2; first_lsn = 10; last_lsn = 19 } ∷ []);
}

attached : (attach_parquet from_zero 1 one_artifact).0.exported_through_lsn ≡ 9
unfolding attach_parquet find bytes_eq modify_first
attached = refl

attach_parquet-Exported_example :
    Exported
      (attach_parquet from_zero 1 one_artifact).0.exported_through_lsn
      (attach_parquet from_zero 1 one_artifact).0.segments_v2
attach_parquet-Exported_example =
    attach_parquet-Exported from_zero 1 one_artifact unique
      (omega arith, behind, (omega arith, (λ t i. absurd i), tt)) (λ s i n h. absurd (omega arith))
  where
    unique : IsUnique (1 ∷ (2 ∷ []))
    unique = ((λ i. elim i [ inl e ↦ omega arith | inr k ↦ k ]), ((λ i. i), tt))

    behind : Behind 9 (record one_segment { segment_id = 2; first_lsn = 10; last_lsn = 19 } ∷ [])
    behind t (inl e) = rw e (omega arith)
    behind t (inr i) = absurd i
