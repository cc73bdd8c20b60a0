-- ===== src/Core/Runtime/Tests.antt =====
-- The lookup of an LSN in a catalogue of two segments.
use crates.Prelude.{ℕ, ◌≡◌, ◌↔◌, inl, inr, arith}
use crates.Prelude.{[], ◌∷◌, none, some}
use crates.Prelude.Search.{In}
use crates.Core.Runtime.{
  SegmentDescriptorV2, DatabaseManifest, default_retention, find_segment_for_lsn,
}
use crates.Core.Runtime.Order.{IsOrdered, Behind, Covers, find_segment_for_lsn-Covers}

abbrev from_to : ℕ → ℕ → ℕ → SegmentDescriptorV2
from_to id first last = record {
  segment_id = id;
  first_lsn = first;
  last_lsn = last;
  record_count = 5;
  canonical_codec = 1;
  logical_root = [];
  min_hlc = 0;
  max_hlc = 0;
  active_generation = 0;
  generations = [];
  hrki = none;
  parquet = none;
  retention = default_retention;
}

abbrev two_segments : DatabaseManifest
two_segments = record {
  manifest_version = 2;
  format_identifier = [];
  segments = [];
  cumulative_watermark = 20;
  statistics_root_hash = [];
  storage_namespace_id = [];
  manifest_generation = 1;
  segments_v2 = from_to 1 1 10 ∷ from_to 2 11 20 ∷ [];
  exported_through_lsn = 0;
}

two_segments-IsOrdered : IsOrdered two_segments.segments_v2
two_segments-IsOrdered = (omega arith, behind, (omega arith, (λ t i. absurd i), tt))
  where
    behind : Behind 10 (from_to 2 11 20 ∷ [])
    behind t (inl e) = rw e (omega arith)
    behind t (inr m) = absurd m

find_segment_for_lsn-Covers_example :
    (find_segment_for_lsn two_segments 15 ≡ some (from_to 2 11 20))
    ↔ (In (from_to 2 11 20) two_segments.segments_v2 × Covers (from_to 2 11 20) 15)
find_segment_for_lsn-Covers_example =
    find_segment_for_lsn-Covers two_segments 15 (from_to 2 11 20) two_segments-IsOrdered
