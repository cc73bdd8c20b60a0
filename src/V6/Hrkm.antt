-- ===== src/V6/Hrkm.antt =====
-- heraclitus-log/src/v6/manifest.rs, the body of a `.hrkm` file: the limits and the encoding of
-- generations, artifacts and segments.
pub mod Decode
pub mod Frame
pub mod Reading
pub mod Generations
pub mod Segments
pub mod Layout
pub mod Checks
pub mod Body
pub mod RoundTrip
pub mod Accepted
pub mod Samples
mod Tests
use crates.Prelude.{ℕ, ◌*◌, Bool, true, false, String}
use crates.Prelude.{List, [], ◌∷◌, ◌++◌, Option, none, some, length, take, replicate}
use crates.Core.Runtime.{PhysicalGeneration, DerivedArtifactRef, SegmentDescriptorV2}
use crates.Core.Codes.{layout_u8, codec_u8, state_u8}
use crates.V6.Platform.{Platform}
use crates.V6.Varint.{encode_varint_into}
use crates.V6.Merkle.{to_le_bytes}

abbrev pub hard_max_location_bytes : ℕ
hard_max_location_bytes = 8 * 1024

-- What `CanonicalSink::put_varint` hands to `put_bytes`: the bytes of a zeroed buffer that
-- `encode_varint_into` used. No `u64` runs out of the buffer.
unfoldable pub varint_bytes : ℕ → List ℕ
unfolding encode_varint_into
varint_bytes v = elim (encode_varint_into (replicate 10 0) v) [
  | none ↦ []
  | some (buf, n) ↦ take n buf
]

abbrev pub sink_varint : List ℕ → ℕ → List ℕ
sink_varint out v = out ++ varint_bytes v

abbrev pub put_u8 : List ℕ → ℕ → List ℕ
put_u8 out v = out ++ (v ∷ [])

-- `put_str`, a `put_lp` of the text's bytes.
abbrev pub put_str : Platform → List ℕ → String → List ℕ
put_str p out s = sink_varint out (length (p.as_bytes s)) ++ p.as_bytes s

-- `u8::from(bool)`.
abbrev pub bool_u8 : Bool → ℕ
bool_u8 true = 1
bool_u8 false = 0

unfoldable pub encode_generation : Platform → List ℕ → PhysicalGeneration → List ℕ
encode_generation p out g =
    let out = sink_varint out g.generation in
    let out = put_u8 out (layout_u8 g.layout) in
    let out = put_u8 out (codec_u8 g.compression) in
    let out = put_u8 out (state_u8 g.state) in
    let out = sink_varint out g.physical_size in
    let out = out ++ g.physical_digest in
    let out = put_str p out g.location in
    let out = sink_varint out g.created_hlc in
    let out = sink_varint out g.verified_hlc in
    let out = sink_varint out g.superseded_hlc in sink_varint out g.verified_copies

unfoldable pub encode_artifact : Platform → List ℕ → Option DerivedArtifactRef → List ℕ
encode_artifact p out none = put_u8 out 0
encode_artifact p out (some a) =
    let out = put_u8 out 1 in
    let out = put_str p out a.location in
    let out = sink_varint out a.size in
    let out = out ++ a.digest in let out = out ++ a.logical_root in sink_varint out a.created_hlc

-- The loop over the generations.
unfoldable pub encode_generations : Platform → List ℕ → List PhysicalGeneration → List ℕ
unfolding encode_generation
encode_generations p out [] = out
encode_generations p out (g ∷ gs) = encode_generations p (encode_generation p out g) gs

unfoldable pub encode_segment : Platform → List ℕ → SegmentDescriptorV2 → List ℕ
unfolding encode_generations encode_artifact
encode_segment p out s =
    let out = sink_varint out s.segment_id in
    let out = sink_varint out s.first_lsn in
    let out = sink_varint out s.last_lsn in
    let out = sink_varint out s.record_count in
    let out = out ++ to_le_bytes 2 s.canonical_codec in
    let out = out ++ s.logical_root in
    let out = sink_varint out s.min_hlc in
    let out = sink_varint out s.max_hlc in
    let out = sink_varint out s.active_generation in
    let out = sink_varint out (length s.generations) in
    let out = encode_generations p out s.generations in
    let out = encode_artifact p out s.hrki in
    let out = encode_artifact p out s.parquet in
    let r = s.retention in
    let out = put_u8 out (bool_u8 r.legal_hold) in
    let out = sink_varint out r.gc_grace_seconds in
    let out = sink_varint out r.min_verified_copies in
    put_u8 out (bool_u8 r.preserve_legacy_original)
