-- ===== src/V6/Hrkm/Decode.antt =====
-- heraclitus-log/src/v6/manifest.rs: the primitive readers, and the decoding of generations, artifacts
-- and segments. A reader takes the buffer and its position and returns what it read with the position
-- behind it.
use crates.Prelude.{ℕ, zero, suc, ◌+◌, ◌-◌, ◌*◌, ◌/◌, ◌^◌, min, Bool, true, false, String}
use crates.Prelude.{List, [], ◌∷◌, Option, none, some, ltb, ◌==◌, if◌then◌else◌, length, drop}
use crates.Core.Runtime.{
  PhysicalGeneration, DerivedArtifactRef, RetentionPolicy, SegmentDescriptorV2,
}
use crates.Core.Codes.{layout_from_u8, codec_from_u8, state_from_u8}
use crates.V6.Platform.{Platform}
use crates.V6.Error.{
  V6Result, ok, err, ◌>>=◌, corrupt, slice_at, invalid_boolean, invalid_presence, exceeds_u32,
  string_too_long, not_utf8, unknown_code, too_many_generations,
}
use crates.V6.Varint.{read_varint, read_varint_usize}
use crates.V6.SegmentCheck.{check_segment_coherence}
use crates.V6.Hrkm.{hard_max_location_bytes}

-- `u16::from_le_bytes` and its like.
unfoldable pub from_le_bytes : List ℕ → ℕ
from_le_bytes [] = 0
from_le_bytes (b ∷ bs) = b + from_le_bytes bs * 256

-- A code that `from_u8` does not know is refused in its own name.
abbrev pub known {ℓ} : {A : Type ℓ} → String → Option A → V6Result A
known ctx none = err (corrupt ctx unknown_code)
known ctx (some a) = ok a

abbrev pub generation_ctx : String
generation_ctx = "hrkm generation"

abbrev pub artifact_ctx : String
artifact_ctx = "hrkm derived artifact"

abbrev pub segment_ctx : String
segment_ctx = "hrkm segment descriptor"

module _ (p : Platform) (buf : List ℕ) where
  unfoldable pub read_u8 : ℕ → String → V6Result (ℕ × ℕ)
  unfolding slice_at
  read_u8 pos ctx = do s ← slice_at p.usize_bits buf pos 1 ctx; ok (from_le_bytes s, pos + 1)

  unfoldable pub read_bool : ℕ → String → V6Result (Bool × ℕ)
  unfolding read_u8
  read_bool pos ctx = do
    (b, pos) ← read_u8 pos ctx
    if b == 0
        then ok (false, pos)
        else if b == 1
        then ok (true, pos)
        else err (corrupt ctx invalid_boolean)

  unfoldable pub read_v : ℕ → String → V6Result (ℕ × ℕ)
  unfolding read_varint
  read_v pos ctx = do (v, n) ← read_varint (drop (min pos (length buf)) buf) ctx; ok (v, pos + n)

  unfoldable pub read_u32 : ℕ → String → V6Result (ℕ × ℕ)
  unfolding read_v
  read_u32 pos ctx = do
    (v, pos) ← read_v pos ctx
    if ltb v (2 ^ 32) then ok (v, pos) else err (corrupt ctx exceeds_u32)

  -- `slice_at(buf, *pos, n)` and `*pos += n`, as in `read_32`.
  unfoldable pub read_array : ℕ → ℕ → String → V6Result (List ℕ × ℕ)
  unfolding slice_at
  read_array n pos ctx = do s ← slice_at p.usize_bits buf pos n ctx; ok (s, pos + n)

  abbrev pub read_32 : ℕ → String → V6Result (List ℕ × ℕ)
  read_32 = read_array 32

  abbrev short_enough : String → ℕ → V6Result (Unit {0})
  short_enough ctx len =
      if ltb hard_max_location_bytes len then err (corrupt ctx string_too_long) else ok tt

  abbrev utf8_at : String → ℕ → Option String → V6Result (String × ℕ)
  utf8_at ctx pos none = err (corrupt ctx not_utf8)
  utf8_at ctx pos (some s) = ok (s, pos)

  unfoldable pub read_string : ℕ → String → V6Result (String × ℕ)
  unfolding read_varint_usize read_array
  read_string pos ctx = do
    (len, n) ← read_varint_usize p.usize_bits (drop (min pos (length buf)) buf) ctx
    _ ← short_enough ctx len
    (raw, pos) ← read_array len (pos + n) ctx
    utf8_at ctx pos (p.from_utf8 raw)

  unfoldable pub decode_generation : ℕ → V6Result (PhysicalGeneration × ℕ)
  unfolding read_u32 read_u8 layout_from_u8 codec_from_u8 state_from_u8 read_v read_array
      read_string
  decode_generation pos = do
    (generation, pos) ← read_u32 pos generation_ctx
    (l, pos) ← read_u8 pos generation_ctx
    layout ← known "physical layout" (layout_from_u8 l)
    (c, pos) ← read_u8 pos generation_ctx
    compression ← known "compression codec" (codec_from_u8 c)
    (t, pos) ← read_u8 pos generation_ctx
    state ← known "generation state" (state_from_u8 t)
    (physical_size, pos) ← read_v pos generation_ctx
    (physical_digest, pos) ← read_32 pos generation_ctx
    (location, pos) ← read_string pos generation_ctx
    (created_hlc, pos) ← read_v pos generation_ctx
    (verified_hlc, pos) ← read_v pos generation_ctx
    (superseded_hlc, pos) ← read_v pos generation_ctx
    (verified_copies, pos) ← read_u32 pos generation_ctx
    ok (
      record {
        generation = generation;
        layout = layout;
        compression = compression;
        location = location;
        physical_size = physical_size;
        physical_digest = physical_digest;
        state = state;
        created_hlc = created_hlc;
        verified_hlc = verified_hlc;
        superseded_hlc = superseded_hlc;
        verified_copies = verified_copies;
      },
      pos,
    )

  unfoldable pub decode_some_artifact : ℕ → V6Result (Option DerivedArtifactRef × ℕ)
  unfolding read_v read_array read_string
  decode_some_artifact pos = do
    (location, pos) ← read_string pos artifact_ctx
    (size, pos) ← read_v pos artifact_ctx
    (digest, pos) ← read_32 pos artifact_ctx
    (logical_root, pos) ← read_32 pos artifact_ctx
    (created_hlc, pos) ← read_v pos artifact_ctx
    ok (
      some (record {
        location = location;
        size = size;
        digest = digest;
        logical_root = logical_root;
        created_hlc = created_hlc;
      }),
      pos,
    )

  unfoldable pub decode_artifact : ℕ → V6Result (Option DerivedArtifactRef × ℕ)
  unfolding read_u8 decode_some_artifact
  decode_artifact pos = do
    (b, pos) ← read_u8 pos artifact_ctx
    if b == 0
        then ok (none, pos)
        else if b == 1
        then decode_some_artifact pos
        else err (corrupt artifact_ctx invalid_presence)

  -- The loop of `gen_count` rounds.
  unfoldable pub decode_generations : ℕ → ℕ → V6Result (List PhysicalGeneration × ℕ)
  unfolding decode_generation
  decode_generations zero pos = ok ([], pos)
  decode_generations (suc n) pos = do
    (g, pos) ← decode_generation pos
    (gs, pos) ← decode_generations n pos
    ok (g ∷ gs, pos)

  unfoldable pub decode_retention : ℕ → V6Result (RetentionPolicy × ℕ)
  unfolding read_bool read_v read_u32
  decode_retention pos = do
    (legal_hold, pos) ← read_bool pos segment_ctx
    (gc_grace_seconds, pos) ← read_v pos segment_ctx
    (min_verified_copies, pos) ← read_u32 pos segment_ctx
    (preserve_legacy_original, pos) ← read_bool pos segment_ctx
    ok (
      record {
        legal_hold = legal_hold;
        gc_grace_seconds = gc_grace_seconds;
        min_verified_copies = min_verified_copies;
        preserve_legacy_original = preserve_legacy_original;
      },
      pos,
    )

  -- The count of generations is checked against the bytes that are left.
  unfoldable pub read_gen_count : ℕ → V6Result (ℕ × ℕ)
  unfolding read_varint_usize
  read_gen_count pos = do
    (v, n) ← read_varint_usize p.usize_bits (drop pos buf) segment_ctx
    if ltb ((length buf - (pos + n)) / 8 + 1) v
        then err (corrupt segment_ctx too_many_generations)
        else ok (v, pos + n)

  unfoldable pub decode_fields : ℕ → V6Result (SegmentDescriptorV2 × ℕ)
  unfolding read_v read_array read_u32 read_gen_count decode_generations decode_artifact
      decode_retention
  decode_fields pos = do
    (segment_id, pos) ← read_v pos segment_ctx
    (first_lsn, pos) ← read_v pos segment_ctx
    (last_lsn, pos) ← read_v pos segment_ctx
    (record_count, pos) ← read_v pos segment_ctx
    (codec, pos) ← read_array 2 pos segment_ctx
    (logical_root, pos) ← read_32 pos segment_ctx
    (min_hlc, pos) ← read_v pos segment_ctx
    (max_hlc, pos) ← read_v pos segment_ctx
    (active_generation, pos) ← read_u32 pos segment_ctx
    (gen_count, pos) ← read_gen_count pos
    (generations, pos) ← decode_generations gen_count pos
    (hrki, pos) ← decode_artifact pos
    (parquet, pos) ← decode_artifact pos
    (retention, pos) ← decode_retention pos
    ok (
      record {
        segment_id = segment_id;
        first_lsn = first_lsn;
        last_lsn = last_lsn;
        record_count = record_count;
        canonical_codec = from_le_bytes codec;
        logical_root = logical_root;
        min_hlc = min_hlc;
        max_hlc = max_hlc;
        active_generation = active_generation;
        generations = generations;
        hrki = hrki;
        parquet = parquet;
        retention = retention;
      },
      pos,
    )

  unfoldable pub decode_segment : ℕ → V6Result (SegmentDescriptorV2 × ℕ)
  unfolding decode_fields check_segment_coherence
  decode_segment pos = do
    (desc, pos) ← decode_fields pos
    _ ← check_segment_coherence desc
    ok (desc, pos)
