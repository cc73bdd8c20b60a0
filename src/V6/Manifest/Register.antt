-- ===== src/V6/Manifest/Register.antt =====
-- `register_sealed_raw`: what the catalogue holds after a seal.
use crates.Prelude.{ℕ, String, ◌≡◌, inl, inr, refl, arith, true, false, if◌then◌else◌, ◌==◌}
use crates.Prelude.{List, [], ◌∷◌, none, some, Bool-cases}
use crates.Prelude.Search.{find, any, modify_first}
use crates.Core.Runtime.{
  PhysicalLayout, CompressionCodec, GenerationState, PhysicalGeneration, SegmentDescriptorV2,
  DatabaseManifest, active_of, has_authority, segment, identified, insert_by_lsn, upsert_list,
  upsert_segment,
}
use crates.V6.Receipts.{FooterV6}
use crates.V6.SegmentCheck.Coherence.{IsCoherent}

replaced-find :
    (d : SegmentDescriptorV2) (ss : List SegmentDescriptorV2) (id : ℕ)
    → any (identified d.segment_id) ss ≡ true
    → find (identified id) (modify_first (identified d.segment_id) (λ _. d) ss)
      ≡ (if d.segment_id == id then some d else find (identified id) ss)
unfolding find any modify_first
replaced-find d [] id h = absurd (cc)
replaced-find d (x ∷ ss) id h = ground (arith, replaced-find d ss id)

insert_by_lsn-find :
    (d : SegmentDescriptorV2) (ss : List SegmentDescriptorV2) (id : ℕ)
    → any (identified d.segment_id) ss ≡ false
    → find (identified id) (insert_by_lsn d ss)
      ≡ (if d.segment_id == id then some d else find (identified id) ss)
unfolding insert_by_lsn find any
insert_by_lsn-find d [] id h = refl
insert_by_lsn-find d (x ∷ ss) id h = ground (arith, insert_by_lsn-find d ss id)

-- A lookup after `upsert_segment`.
pub upsert_segment-segment :
    (m : DatabaseManifest) (d : SegmentDescriptorV2) (id : ℕ)
    → segment (upsert_segment m d) id ≡ (if d.segment_id == id then some d else segment m id)
unfolding segment upsert_segment upsert_list
upsert_segment-segment m d id = elim (Bool-cases (any (identified d.segment_id) m.segments_v2)) [
  | inl t ↦ rw (t, upsert_list) (replaced-find d m.segments_v2 id t)
  | inr f ↦ rw (f, upsert_list) (insert_by_lsn-find d m.segments_v2 id f)
]

-- The RAW generation that a seal writes, as the file on disk was measured: it serves, holds
-- authority, is verified in one copy as of now, and is not superseded.
pub record IsRawCopy (location : String) (size : ℕ) (digest : List ℕ) (now_hlc : ℕ)
    (g : PhysicalGeneration) : Type 0 where
  pub first : g.generation ≡ 0
  pub plain : (g.layout ≡ PhysicalLayout.raw) × (g.compression ≡ CompressionCodec.raw)
  pub file : (g.location ≡ location) × (g.physical_size ≡ size) × (g.physical_digest ≡ digest)
  pub authority : has_authority g ≡ true
  pub serves : g.state ≡ GenerationState.active
  pub copies : g.verified_copies ≡ 1
  pub stamped : (g.created_hlc ≡ now_hlc) × (g.verified_hlc ≡ now_hlc) × (g.superseded_hlc ≡ 0)

-- The descriptor `d` has the identity and the ranges that the footer states, is coherent, is served
-- from the RAW file alone, and has no derived artefact and no legal hold.
pub record IsSealed (id : ℕ) (footer : FooterV6) (codec : ℕ) (location : String) (size : ℕ)
    (digest : List ℕ) (now_hlc : ℕ) (d : SegmentDescriptorV2) : Type 0 where
  pub same_id : d.segment_id ≡ id
  pub same_root : d.logical_root ≡ footer.logical_root
  pub same_codec : d.canonical_codec ≡ codec
  pub records : d.record_count ≡ footer.record_count
  pub lsns : (d.first_lsn ≡ footer.min_lsn) × (d.last_lsn ≡ footer.max_lsn)
  pub hlcs : (d.min_hlc ≡ footer.min_hlc) × (d.max_hlc ≡ footer.max_hlc)
  pub coherent : IsCoherent d
  pub one_copy :
      (g : PhysicalGeneration) × (d.generations ≡ g ∷ [])
      × (active_of d ≡ some g)
      × IsRawCopy location size digest now_hlc g
  pub underived : (d.hrki ≡ none) × (d.parquet ≡ none)
  pub unheld : d.retention.legal_hold ≡ false
