-- ===== src/Core/Runtime.antt =====
-- heraclitus-core/src/runtime.rs: the database manifest, its segments and their physical generations.
pub mod Order
pub mod Tests
use crates.Prelude.{
  ℕ, zero, suc, ◌+◌, ◌%◌, ◌^◌, Bool, true, false, ◌||◌, ◌&&◌, not, String, min, max,
}
use crates.Prelude.{List, [], ◌∷◌, ◌++◌, map, Option, none, some, ltb, leb, ◌==◌, if◌then◌else◌}
use crates.Prelude.Search.{find, any, retain, modify_first}
use crates.Prelude.Bytes.{bytes_eq}
use mathlib.Core.Option

pub data SegmentState : Type 0 where
  active frozen archived : SegmentState

-- The v1 view of a segment.
pub record SegmentDescriptor : Type 0 where
  pub segment_id : ℕ
  pub first_lsn : ℕ
  pub last_lsn : ℕ
  pub event_count : ℕ
  pub payload_hash : List ℕ
  pub state : SegmentState

pub data PhysicalLayout : Type 0 where
  raw packed : PhysicalLayout

pub data CompressionCodec : Type 0 where
  raw zstd lz4_raw : CompressionCodec

pub data GenerationState : Type 0 where
  writing verified active superseded archived quarantined : GenerationState

abbrev pub is_packed : PhysicalLayout → Bool
is_packed PhysicalLayout.raw = false
is_packed PhysicalLayout.packed = true

abbrev pub is_raw : PhysicalLayout → Bool
is_raw PhysicalLayout.raw = true
is_raw PhysicalLayout.packed = false

abbrev pub is_quarantined : GenerationState → Bool
is_quarantined GenerationState.quarantined = true
is_quarantined _ = false

abbrev pub is_superseded : GenerationState → Bool
is_superseded GenerationState.superseded = true
is_superseded _ = false

-- A generation in this state can rebuild the canonical records of its segment.
abbrev pub is_canonical_authority : GenerationState → Bool
is_canonical_authority GenerationState.verified = true
is_canonical_authority GenerationState.active = true
is_canonical_authority GenerationState.superseded = true
is_canonical_authority GenerationState.archived = true
is_canonical_authority _ = false

pub record PhysicalGeneration : Type 0 where
  pub generation : ℕ
  pub layout : PhysicalLayout
  pub compression : CompressionCodec
  pub location : String
  pub physical_size : ℕ
  pub physical_digest : List ℕ
  pub state : GenerationState
  pub created_hlc : ℕ
  pub verified_hlc : ℕ
  pub superseded_hlc : ℕ
  pub verified_copies : ℕ

abbrev pub has_authority : PhysicalGeneration → Bool
has_authority g = is_canonical_authority g.state

pub record DerivedArtifactRef : Type 0 where
  pub location : String
  pub size : ℕ
  pub digest : List ℕ
  pub logical_root : List ℕ
  pub created_hlc : ℕ

pub record RetentionPolicy : Type 0 where
  pub legal_hold : Bool
  pub gc_grace_seconds : ℕ
  pub min_verified_copies : ℕ
  pub preserve_legacy_original : Bool

abbrev pub default_retention : RetentionPolicy
default_retention = record {
  legal_hold = false;
  gc_grace_seconds = 86_400;
  min_verified_copies = 1;
  preserve_legacy_original = true;
}

pub record SegmentDescriptorV2 : Type 0 where
  pub segment_id : ℕ
  pub first_lsn : ℕ
  pub last_lsn : ℕ
  pub record_count : ℕ
  pub canonical_codec : ℕ
  pub logical_root : List ℕ
  pub min_hlc : ℕ
  pub max_hlc : ℕ
  pub active_generation : ℕ
  pub generations : List PhysicalGeneration
  pub hrki : Option DerivedArtifactRef
  pub parquet : Option DerivedArtifactRef
  pub retention : RetentionPolicy

pub record DatabaseManifest : Type 0 where
  pub manifest_version : ℕ
  pub format_identifier : List ℕ
  pub segments : List SegmentDescriptor
  pub cumulative_watermark : ℕ
  pub statistics_root_hash : List ℕ
  pub storage_namespace_id : List ℕ
  pub manifest_generation : ℕ
  pub segments_v2 : List SegmentDescriptorV2
  pub exported_through_lsn : ℕ

abbrev pub numbered : ℕ → PhysicalGeneration → Bool
numbered n g = g.generation == n

-- `SegmentDescriptorV2::generation`; `generation_mut` is `modify_first` with the same test.
unfoldable pub generation : SegmentDescriptorV2 → ℕ → Option PhysicalGeneration
generation s n = find (numbered n) s.generations

-- `SegmentDescriptorV2::active`.
unfoldable pub active_of : SegmentDescriptorV2 → Option PhysicalGeneration
active_of s = find (numbered s.active_generation) s.generations

unfoldable pub canonical_authorities : SegmentDescriptorV2 → List PhysicalGeneration
canonical_authorities s = retain has_authority s.generations

unfoldable pub has_packed : SegmentDescriptorV2 → Bool
unfolding canonical_authorities
has_packed s = any (λ g. is_packed g.layout) (canonical_authorities s)

unfoldable pub has_raw : SegmentDescriptorV2 → Bool
unfolding canonical_authorities
has_raw s = any (λ g. is_raw g.layout) (canonical_authorities s)

max_number : List PhysicalGeneration → Option ℕ
max_number [] = none
max_number (g ∷ gs) =
    some (elim (max_number gs) [ none ↦ g.generation | some n ↦ max g.generation n ])

-- The `+ 1` is that of a u32.
unfoldable pub next_generation_number : SegmentDescriptorV2 → ℕ
unfolding max_number
next_generation_number s = elim (max_number s.generations) [ none ↦ 0 | some n ↦ (n + 1) % 2 ^ 32 ]

unfoldable pub visible_at : SegmentDescriptorV2 → ℕ → Bool
visible_at s target_lsn = leb s.first_lsn target_lsn

unfoldable pub may_contain_hlc_range : SegmentDescriptorV2 → ℕ → ℕ → Bool
may_contain_hlc_range s lo hi = s.record_count == 0 || (leb lo s.max_hlc && leb s.min_hlc hi)

unfoldable pub may_contain_lsn_range : SegmentDescriptorV2 → ℕ → ℕ → Bool
may_contain_lsn_range s lo hi = s.record_count == 0 || (leb lo s.last_lsn && leb s.first_lsn hi)

abbrev pub identified : ℕ → SegmentDescriptorV2 → Bool
identified id s = s.segment_id == id

-- `DatabaseManifest::segment`; `segment_mut` is `modify_first` with the same test.
unfoldable pub segment : DatabaseManifest → ℕ → Option SegmentDescriptorV2
segment m id = find (identified id) m.segments_v2

-- `insert(partition_point(|s| s.first_lsn < desc.first_lsn), desc)`. On a list that is in order of
-- `first_lsn` the binary search finds the first segment that fails the test.
unfoldable pub insert_by_lsn :
    SegmentDescriptorV2 → List SegmentDescriptorV2 → List SegmentDescriptorV2
insert_by_lsn desc [] = desc ∷ []
insert_by_lsn desc (s ∷ ss) =
    if ltb s.first_lsn desc.first_lsn then s ∷ insert_by_lsn desc ss else desc ∷ s ∷ ss

unfoldable pub upsert_list :
    SegmentDescriptorV2 → List SegmentDescriptorV2 → List SegmentDescriptorV2
unfolding insert_by_lsn
upsert_list desc ss =
    if any (identified desc.segment_id) ss
    then modify_first (identified desc.segment_id) (λ _. desc) ss
    else insert_by_lsn desc ss

unfoldable pub upsert_segment : DatabaseManifest → SegmentDescriptorV2 → DatabaseManifest
unfolding upsert_list
upsert_segment m desc = record m { segments_v2 = upsert_list desc m.segments_v2 }

unfoldable pub visible_segments_v2 : DatabaseManifest → ℕ → List SegmentDescriptorV2
unfolding visible_at
visible_segments_v2 m target_lsn = retain (λ s. visible_at s target_lsn) m.segments_v2

-- The segment at `partition_point(|s| s.last_lsn < lsn)`.
unfoldable pub at_partition : ℕ → List SegmentDescriptorV2 → Option SegmentDescriptorV2
at_partition lsn [] = none
at_partition lsn (s ∷ ss) = if ltb s.last_lsn lsn then at_partition lsn ss else some s

unfoldable pub find_segment_for_lsn : DatabaseManifest → ℕ → Option SegmentDescriptorV2
unfolding at_partition
find_segment_for_lsn m lsn = elim (at_partition lsn m.segments_v2) [
  | none ↦ none
  | some s ↦
      if ltb 0 s.record_count && (leb s.first_lsn lsn && leb lsn s.last_lsn) then some s else none
]

unfoldable pub segments_for_hlc_range : DatabaseManifest → ℕ → ℕ → List SegmentDescriptorV2
unfolding may_contain_hlc_range
segments_for_hlc_range m lo hi = retain (λ s. may_contain_hlc_range s lo hi) m.segments_v2

unfoldable pub segments_for_lsn_range : DatabaseManifest → ℕ → ℕ → List SegmentDescriptorV2
unfolding may_contain_lsn_range
segments_for_lsn_range m lo hi = retain (λ s. may_contain_lsn_range s lo hi) m.segments_v2

ids : List SegmentDescriptorV2 → List ℕ
ids = map (λ s. s.segment_id)

unfoldable pub packing_queue : DatabaseManifest → List ℕ
unfolding ids has_raw has_packed
packing_queue m = ids (retain (λ s. has_raw s && not (has_packed s)) m.segments_v2)

-- `map(|a| a.logical_root != root).unwrap_or(true)`.
abbrev pub is_stale : List ℕ → Option DerivedArtifactRef → Bool
is_stale root none = true
is_stale root (some a) = not (bytes_eq a.logical_root root)

unfoldable pub sidecar_queue : DatabaseManifest → List ℕ
unfolding ids has_packed
sidecar_queue m = ids (retain (λ s. has_packed s && is_stale s.logical_root s.hrki) m.segments_v2)

unfoldable pub lakehouse_queue : DatabaseManifest → List ℕ
unfolding ids
lakehouse_queue m = ids (retain (λ s. is_stale s.logical_root s.parquet) m.segments_v2)
