-- ===== src/V6/Manifest.antt =====
-- heraclitus-log/src/v6/manifest.rs, the state machine over the catalogue. A function that takes
-- `&mut DatabaseManifest` returns the manifest that it leaves, on its error paths too.
pub mod Catalogue
pub mod Best
pub mod Quarantine
pub mod Outcome
pub mod Pack
pub mod Writes
pub mod Export
pub mod Register
pub mod Tests
use crates.Prelude.{
  ℕ, zero, suc, ◌+◌, ◌-◌, ◌^◌, Bool, true, false, ◌||◌, ◌&&◌, not, String, min, max,
}
use crates.Prelude.{
  List, [], ◌∷◌, ◌++◌, map, Option, none, some, ltb, leb, ◌==◌, if◌then◌else◌, length,
}
use crates.Prelude.Search.{find, any, retain, modify_first}
use crates.Prelude.Bytes.{bytes_eq}
use crates.Core.Runtime.{
  PhysicalLayout, CompressionCodec, GenerationState, PhysicalGeneration, DerivedArtifactRef,
  RetentionPolicy, SegmentDescriptorV2, DatabaseManifest, default_retention, is_packed,
  is_quarantined, is_superseded, has_authority, numbered, identified, generation, active_of,
  segment, canonical_authorities, upsert_segment,
}
use crates.V6.Error.{
  V6Result, ok, err, ◌>>=◌, corrupt, segment_unknown, generation_unknown, generation_exists,
  root_differs, no_authority_left, lsn_reversed, hlc_reversed, too_many_records,
  duplicate_generations, active_missing,
}
use crates.V6.Receipts.{FooterV6, PackReceipt}
use crates.V6.SegmentCheck.{check_segment_coherence}
use mathlib.Core.Option

abbrev raw_generation : String → ℕ → List ℕ → ℕ → PhysicalGeneration
raw_generation location physical_size physical_digest now_hlc = record {
  generation = 0;
  layout = PhysicalLayout.raw;
  compression = CompressionCodec.raw;
  location = location;
  physical_size = physical_size;
  physical_digest = physical_digest;
  state = GenerationState.active;
  created_hlc = now_hlc;
  verified_hlc = now_hlc;
  superseded_hlc = 0;
  verified_copies = 1;
}

abbrev pub sealed_descriptor : ℕ → FooterV6 → ℕ → String → ℕ → List ℕ → ℕ → SegmentDescriptorV2
sealed_descriptor segment_id footer canonical_codec location size digest now_hlc = record {
  segment_id = segment_id;
  first_lsn = footer.min_lsn;
  last_lsn = footer.max_lsn;
  record_count = footer.record_count;
  canonical_codec = canonical_codec;
  logical_root = footer.logical_root;
  min_hlc = footer.min_hlc;
  max_hlc = footer.max_hlc;
  active_generation = 0;
  generations = raw_generation location size digest now_hlc ∷ [];
  hrki = none;
  parquet = none;
  retention = default_retention;
}

-- The manifest that a check of the new descriptor lets through.
abbrev catalogue : DatabaseManifest → SegmentDescriptorV2 → ℕ → DatabaseManifest
catalogue m desc max_lsn =
    let m' = upsert_segment m desc in
    record m' { cumulative_watermark = max m'.cumulative_watermark max_lsn }

-- From the check of the new descriptor on.
admit_sealed : DatabaseManifest → SegmentDescriptorV2 → ℕ → DatabaseManifest × V6Result (Unit {0})
unfolding upsert_segment check_segment_coherence
admit_sealed m desc max_lsn = elim (check_segment_coherence desc) [
  | err e ↦ (m, err e)
  | ok _ ↦ (catalogue m desc max_lsn, ok tt)
]

unfoldable pub register_sealed_raw :
    DatabaseManifest
    → ℕ
    → FooterV6
    → ℕ
    → String
    → ℕ
    → List ℕ
    → ℕ
    → DatabaseManifest × V6Result (Unit {0})
unfolding segment admit_sealed
register_sealed_raw m segment_id footer canonical_codec location size digest now_hlc =
    let desc = sealed_descriptor segment_id footer canonical_codec location size digest now_hlc in
    let admit = admit_sealed m desc footer.max_lsn in
    elim (segment m segment_id) [
      | none ↦ admit
      | some existing ↦
          if bytes_eq existing.logical_root footer.logical_root
          then admit
          else (m, err (corrupt "hrkm register" root_differs))
    ]

pub packed_generation : PackReceipt → String → ℕ → PhysicalGeneration
packed_generation receipt target_location now_hlc = record {
  generation = receipt.target_generation;
  layout = PhysicalLayout.packed;
  compression = receipt.codec;
  location = target_location;
  physical_size = receipt.target_physical_size;
  physical_digest = receipt.target_physical_digest;
  state = GenerationState.active;
  created_hlc = now_hlc;
  verified_hlc = now_hlc;
  superseded_hlc = 0;
  verified_copies = 1;
}

-- `if src.state != Quarantined { .. }`.
pub supersede : ℕ → PhysicalGeneration → PhysicalGeneration
supersede now_hlc g =
    if is_quarantined g.state
    then g
    else record g { state = GenerationState.superseded; superseded_hlc = now_hlc }

pub packed_descriptor : PackReceipt → String → ℕ → SegmentDescriptorV2 → SegmentDescriptorV2
unfolding packed_generation supersede
packed_descriptor receipt target_location now_hlc desc = record desc {
  generations =
      modify_first (numbered receipt.source_generation) (supersede now_hlc)
        (desc.generations ++ (packed_generation receipt target_location now_hlc ∷ []));
  active_generation = receipt.target_generation;
}

-- Writes through `segment_mut(id)`.
abbrev pub update_segment :
    DatabaseManifest → ℕ → (SegmentDescriptorV2 → SegmentDescriptorV2) → DatabaseManifest
update_segment m id f = record m { segments_v2 = modify_first (identified id) f m.segments_v2 }

unfoldable pub record_pack :
    DatabaseManifest → PackReceipt → String → ℕ → DatabaseManifest × V6Result (Unit {0})
unfolding segment generation packed_descriptor
record_pack m receipt target_location now_hlc = elim (segment m receipt.segment_id) [
  | none ↦ (m, err (corrupt "hrkm record_pack" segment_unknown))
  | some desc ↦
      if not (bytes_eq desc.logical_root receipt.logical_root)
      then (m, err (corrupt "hrkm record_pack" root_differs))
      else elim (generation desc receipt.target_generation) [
        | some _ ↦ (m, err (corrupt "hrkm record_pack" generation_exists))
        | none ↦
            let desc' = packed_descriptor receipt target_location now_hlc desc in
            (update_segment m receipt.segment_id (λ _. desc'), check_segment_coherence desc')
      ]
]

-- The key `(u8::from(layout == Packed), generation)` of two generations in lexicographic order.
pub better : PhysicalGeneration → PhysicalGeneration → Bool
better g h =
    if is_packed g.layout
    then (if is_packed h.layout then ltb h.generation g.generation else true)
    else if is_packed h.layout
    then false
    else ltb h.generation g.generation

-- `max_by_key` by that key; of equal elements it returns the last.
pub best : List PhysicalGeneration → Option PhysicalGeneration
unfolding better
best [] = none
best (g ∷ gs) = some (elim (best gs) [ none ↦ g | some h ↦ if better g h then g else h ])

quarantine : ℕ → PhysicalGeneration → PhysicalGeneration
quarantine now_hlc g = record g { state = GenerationState.quarantined; superseded_hlc = now_hlc }

-- `if gg.state == Superseded { .. }`.
reactivate : PhysicalGeneration → PhysicalGeneration
reactivate g =
    if is_superseded g.state
    then record g { state = GenerationState.active; superseded_hlc = 0 }
    else g

pub with_quarantined : ℕ → ℕ → SegmentDescriptorV2 → SegmentDescriptorV2
unfolding quarantine
with_quarantined n now_hlc desc = record desc {
  generations = modify_first (numbered n) (quarantine now_hlc) desc.generations;
}

pub with_active : ℕ → SegmentDescriptorV2 → SegmentDescriptorV2
unfolding reactivate
with_active n desc = record desc {
  active_generation = n;
  generations = modify_first (numbered n) reactivate desc.generations;
}

unfoldable pub quarantine_generation : DatabaseManifest → ℕ → ℕ → ℕ → DatabaseManifest × V6Result ℕ
unfolding segment generation with_quarantined with_active best canonical_authorities
quarantine_generation m segment_id n now_hlc = elim (segment m segment_id) [
  | none ↦ (m, err (corrupt "hrkm quarantine" segment_unknown))
  | some desc ↦ elim (generation desc n) [
    | none ↦ (m, err (corrupt "hrkm quarantine" generation_unknown))
    | some _ ↦
        let held = with_quarantined n now_hlc desc in
        elim (best (canonical_authorities held)) [
          | some g ↦
              (update_segment m segment_id (λ _. with_active g.generation held), ok g.generation)
          | none ↦ (
            update_segment m segment_id (λ _. held),
            err (corrupt "hrkm quarantine" no_authority_left),
          )
        ]
  ]
]

unfoldable pub attach_sidecar :
    DatabaseManifest → ℕ → DerivedArtifactRef → DatabaseManifest × V6Result (Unit {0})
unfolding segment
attach_sidecar m segment_id artifact = elim (segment m segment_id) [
  | none ↦ (m, err (corrupt "hrkm attach_sidecar" segment_unknown))
  | some desc ↦
      if not (bytes_eq artifact.logical_root desc.logical_root)
      then (m, err (corrupt "hrkm attach_sidecar" root_differs))
      else (update_segment m segment_id (λ s. record s { hrki = some artifact }), ok tt)
]

-- `map(|p| p.logical_root == s.logical_root).unwrap_or(false)`.
abbrev pub is_exported : SegmentDescriptorV2 → Bool
is_exported s = elim s.parquet [ none ↦ false | some p ↦ bytes_eq p.logical_root s.logical_root ]

-- The loop of `contiguous_exported_lsn`, from the watermark so far.
unfoldable pub exported_from : ℕ → List SegmentDescriptorV2 → ℕ
exported_from watermark [] = watermark
exported_from watermark (s ∷ ss) = if is_exported s then exported_from s.last_lsn ss else watermark

unfoldable pub contiguous_exported_lsn : DatabaseManifest → ℕ
unfolding exported_from
contiguous_exported_lsn m = exported_from 0 m.segments_v2

unfoldable pub attach_parquet :
    DatabaseManifest → ℕ → DerivedArtifactRef → DatabaseManifest × V6Result (Unit {0})
unfolding segment contiguous_exported_lsn
attach_parquet m segment_id artifact = elim (segment m segment_id) [
  | none ↦ (m, err (corrupt "hrkm attach_parquet" segment_unknown))
  | some desc ↦
      if not (bytes_eq artifact.logical_root desc.logical_root)
      then (m, err (corrupt "hrkm attach_parquet" root_differs))
      else (let m' = update_segment m segment_id (λ s. record s { parquet = some artifact }) in
          (
            record m' {
              exported_through_lsn =
                  max (contiguous_exported_lsn m') (min m.exported_through_lsn desc.last_lsn);
            },
            ok tt,
          ))
]

unfoldable pub set_legal_hold : DatabaseManifest → ℕ → Bool → DatabaseManifest × V6Result (Unit {0})
unfolding segment
set_legal_hold m segment_id hold = elim (segment m segment_id) [
  | none ↦ (m, err (corrupt "hrkm legal_hold" segment_unknown))
  | some _ ↦ (
    update_segment m segment_id
        (λ s. let r = s.retention in record s { retention = record r { legal_hold = hold } }),
    ok tt,
  )
]

unfoldable pub set_verified_copies :
    DatabaseManifest → ℕ → ℕ → ℕ → DatabaseManifest × V6Result (Unit {0})
unfolding segment generation
set_verified_copies m segment_id n copies = elim (segment m segment_id) [
  | none ↦ (m, err (corrupt "hrkm verified_copies" segment_unknown))
  | some desc ↦ elim (generation desc n) [
    | none ↦ (m, err (corrupt "hrkm verified_copies" generation_unknown))
    | some _ ↦ (
      update_segment m segment_id (λ s. record s {
        generations =
            modify_first (numbered n) (λ g. record g { verified_copies = copies }) s.generations;
      }),
      ok tt,
    )
  ]
]
