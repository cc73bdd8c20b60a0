-- ===== src/V6/Hrkm/Segments.antt =====
-- Segment descriptors of heraclitus-log/src/v6/manifest.rs, written and read back.
use crates.Prelude.{ℕ, zero, suc, ◌+◌, ◌-◌, ◌/◌, ◌^◌, ◌≤◌, ◌<◌, ◌≡◌, refl, ◌∙◌, arith}
use crates.Prelude.{false, ltb, lt→ltb}
use crates.Prelude.{List, ◌∷◌, ◌++◌, append_assoc, All, length}
use crates.Core.Runtime.{PhysicalGeneration, RetentionPolicy, SegmentDescriptorV2}
use crates.V6.Platform.{Platform, IsPlatform}
use crates.V6.Varint.{IsU64, read_varint_usize}
use crates.V6.Merkle.{to_le_bytes}
use crates.V6.Merkle.Collision.{length-to_le_bytes}
use crates.V6.SegmentCheck.Coherence.{IsCoherent, check_segment_coherence-IsCoherent}
use crates.V6.Hrkm.{varint_bytes, bool_u8, encode_segment}
use crates.V6.Hrkm.Decode.{
  segment_ctx, from_le_bytes, decode_retention, read_gen_count, decode_fields, decode_segment,
}
use crates.V6.Hrkm.Reading.{
  IsAt, IsAt-append, Reads, Reads-bind, read_bool-Reads, read_u32-Reads, read_v-Reads,
  read_array-Reads, varint_at,
}
use crates.V6.Hrkm.Generations.{
  generations_then, artifact_then, encode_generations-then, encode_artifact-then, IsGeneration,
  IsOptionalArtifact, decode_generations-Reads, decode_artifact-Reads, length-generations_then,
}

pub from_le_bytes-to_le_bytes : (w n : ℕ) → n < 256 ^ w → from_le_bytes (to_le_bytes w n) ≡ n
unfolding from_le_bytes to_le_bytes
from_le_bytes-to_le_bytes zero n h = omega arith
from_le_bytes-to_le_bytes (suc w) n h =
    omega (arith, from_le_bytes-to_le_bytes w (n / 256) (omega arith))

pub not_below : (a b : ℕ) → b ≤ a → ltb a b ≡ false
not_below a b h = ground arith

-- The fields are those of the Rust record, and the descriptor is coherent.
pub record IsSegment (p : Platform) (s : SegmentDescriptorV2) : Type 0 where
  pub segment_id : IsU64 s.segment_id
  pub first_lsn : IsU64 s.first_lsn
  pub last_lsn : IsU64 s.last_lsn
  pub record_count : IsU64 s.record_count
  pub canonical_codec : s.canonical_codec < 2 ^ 16
  pub logical_root : length s.logical_root ≡ 32
  pub min_hlc : IsU64 s.min_hlc
  pub max_hlc : IsU64 s.max_hlc
  pub active_generation : s.active_generation < 2 ^ 32
  pub generations : All (IsGeneration p) s.generations
  pub hrki : IsOptionalArtifact p s.hrki
  pub parquet : IsOptionalArtifact p s.parquet
  pub gc_grace_seconds : IsU64 s.retention.gc_grace_seconds
  pub min_verified_copies : s.retention.min_verified_copies < 2 ^ 32
  pub coherent : IsCoherent s

module _ (p : Platform) where
  abbrev retention_then : RetentionPolicy → List ℕ → List ℕ
  retention_then r rest =
      bool_u8 r.legal_hold
      ∷ (varint_bytes r.gc_grace_seconds
          ++ (varint_bytes r.min_verified_copies ++ (bool_u8 r.preserve_legacy_original ∷ rest)))

  -- From the count of generations on.
  abbrev tail_then : SegmentDescriptorV2 → List ℕ → List ℕ
  tail_then s rest =
      varint_bytes (length s.generations)
      ++ generations_then p s.generations
          (artifact_then p s.hrki (artifact_then p s.parquet (retention_then s.retention rest)))

  abbrev pub segment_then : SegmentDescriptorV2 → List ℕ → List ℕ
  segment_then s rest =
      varint_bytes s.segment_id
      ++ (varint_bytes s.first_lsn
          ++ (varint_bytes s.last_lsn
              ++ (varint_bytes s.record_count
                  ++ (to_le_bytes 2 s.canonical_codec
                      ++ (s.logical_root
                          ++ (varint_bytes s.min_hlc
                              ++ (varint_bytes s.max_hlc
                                  ++ (varint_bytes s.active_generation ++ tail_then s rest))))))))

  pub encode_segment-then :
      (out : List ℕ) (s : SegmentDescriptorV2) (rest : List ℕ)
      → encode_segment p out s ++ rest ≡ out ++ segment_then s rest
  unfolding encode_segment
  encode_segment-then out s rest = simp append_assoc (
      encode_artifact-then p _ s.parquet (retention_then s.retention rest)
      ∙ encode_artifact-then p _ s.hrki _
      ∙ encode_generations-then p _ s.generations _
      ∙ simp append_assoc refl)

  module _ (buf : List ℕ) (lawful : IsPlatform p) (short : length buf < 2 ^ p.usize_bits)
      (u64 : IsU64 (length buf)) where
    decode_retention-Reads :
        (r : RetentionPolicy) (rest : List ℕ) (pos : ℕ)
        → IsU64 r.gc_grace_seconds
        → r.min_verified_copies < 2 ^ 32
        → IsAt buf pos (retention_then r rest)
        → Reads buf (decode_retention p buf pos) r rest
    unfolding decode_retention
    decode_retention-Reads r rest pos u v h =
        Reads-bind _ (read_bool-Reads p buf lawful short r.legal_hold _ _ _ h) λ _ h.
          Reads-bind _ (read_v-Reads p buf lawful short _ _ _ _ u h) λ _ h.
            Reads-bind _ (read_u32-Reads p buf lawful short _ _ _ _ v h) λ _ h.
              Reads-bind _ (read_bool-Reads p buf lawful short r.preserve_legacy_original _ _ _ h)
                λ q h. (q, refl, h)

    read_gen_count-Reads :
        (gs : List PhysicalGeneration) (rest : List ℕ) (pos : ℕ)
        → All (IsGeneration p) gs
        → IsAt buf pos (varint_bytes (length gs) ++ generations_then p gs rest)
        → Reads buf (read_gen_count p buf pos) (length gs) (generations_then p gs rest)
    unfolding read_gen_count read_varint_usize
    read_gen_count-Reads gs rest pos w h =
        let n = length gs in
        let k = IsAt-append buf (varint_bytes n) (generations_then p gs rest) pos h in
        let l = length-generations_then p gs rest w in
        let below : n < 2 ^ p.usize_bits = omega (arith, k.1, l, short) in
        let (_, e) =
          varint_at p buf lawful short n (generations_then p gs rest) pos segment_ctx
            (omega (arith, k.1, l, u64)) h in
        let left = length buf - (pos + length (varint_bytes n)) in
        let room : n ≤ left / 8 + 1 = omega (arith, k.1, l) in
        let enough : ltb (left / 8 + 1) n ≡ false = not_below _ _ room in
        (pos + length (varint_bytes n), rw e (rw (lt→ltb _ _ below) (rw enough refl)), k)

    decode_fields-Reads :
        (s : SegmentDescriptorV2) (rest : List ℕ) (pos : ℕ)
        → IsSegment p s
        → IsAt buf pos (segment_then s rest)
        → Reads buf (decode_fields p buf pos) s rest
    unfolding decode_fields
    decode_fields-Reads s rest pos w h =
        Reads-bind _ (read_v-Reads p buf lawful short _ _ _ _ w.segment_id h) λ _ h.
          Reads-bind _ (read_v-Reads p buf lawful short _ _ _ _ w.first_lsn h) λ _ h.
            Reads-bind _ (read_v-Reads p buf lawful short _ _ _ _ w.last_lsn h) λ _ h.
              Reads-bind _ (read_v-Reads p buf lawful short _ _ _ _ w.record_count h) λ _ h.
                Reads-bind _
                  (read_array-Reads p buf lawful short _ _ _ _ _
                    (length-to_le_bytes 2 s.canonical_codec) h)
                  λ _ h.
                    Reads-bind _ (read_array-Reads p buf lawful short _ _ _ _ _ w.logical_root h)
                      λ _ h.
                        Reads-bind _ (read_v-Reads p buf lawful short _ _ _ _ w.min_hlc h) λ _ h.
                          Reads-bind _ (read_v-Reads p buf lawful short _ _ _ _ w.max_hlc h) λ _ h.
                            Reads-bind _
                              (read_u32-Reads p buf lawful short _ _ _ _ w.active_generation h)
                              λ _ h.
                                Reads-bind _
                                  (read_gen_count-Reads s.generations _ _ w.generations h)
                                  λ _ h.
                                    Reads-bind _
                                      (decode_generations-Reads p buf lawful short s.generations _ _
                                        w.generations h)
                                      λ _ h.
                                        Reads-bind _
                                          (decode_artifact-Reads p buf lawful short s.hrki _ _
                                            w.hrki h)
                                          λ _ h.
                                            Reads-bind _
                                              (decode_artifact-Reads p buf lawful short s.parquet _
                                                _ w.parquet h)
                                              λ _ h.
                                                Reads-bind _
                                                  (decode_retention-Reads s.retention _ _
                                                    w.gc_grace_seconds w.min_verified_copies h)
                                                  λ q h. (
                                                    q,
                                                    rw
                                                        (from_le_bytes-to_le_bytes 2
                                                          s.canonical_codec
                                                          (omega (arith, w.canonical_codec)))
                                                        refl,
                                                    h,
                                                  )

    -- A segment that was written is read back, and its check passes.
    pub decode_segment-Reads :
        (s : SegmentDescriptorV2) (rest : List ℕ) (pos : ℕ)
        → IsSegment p s
        → IsAt buf pos (segment_then s rest)
        → Reads buf (decode_segment p buf pos) s rest
    unfolding decode_segment
    decode_segment-Reads s rest pos w h =
        Reads-bind _ (decode_fields-Reads s rest pos w h)
          λ q h. (q, rw ((check_segment_coherence-IsCoherent s).1 w.coherent) refl, h)
