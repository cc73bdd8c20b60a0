-- ===== src/V6/Hrkm/Frame.antt =====
-- heraclitus-log/src/v6/manifest.rs, `encode_manifest` and `decode_manifest`: the header of 64 bytes, the
-- segments, and the footer of 96 bytes of a `.hrkm` file. The fields of header and footer are laid out in
-- the order of their offsets; `usize` is at least as wide as a u32.
use crates.Prelude.{ℕ, zero, suc, ◌+◌, ◌-◌, ◌*◌, ◌^◌, ◌%◌, Bool, true, false, not}
use crates.Prelude.{
  List, [], ◌∷◌, ◌++◌, ltb, leb, ◌==◌, if◌then◌else◌, length, take, drop, replicate,
}
use crates.Prelude.Bytes.{bytes_eq}
use crates.Core.Runtime.{SegmentDescriptorV2, DatabaseManifest}
use crates.V6.Platform.{Platform, crc32c_of}
use crates.V6.Error.{
  V6Result, ok, err, ◌>>=◌, corrupt, Fault, too_many_segments, body_too_long, file_too_small,
  bad_magic, bad_version, bad_header_len, header_crc_differs, bad_footer_magic, bad_footer_len,
  file_crc_differs, body_len_exceeds_usize, body_len_differs, body_digest_differs, trailing_bytes,
  segments_unordered,
}
use crates.V6.Merkle.{to_le_bytes}
use crates.V6.Hrkm.{encode_segment}
use crates.V6.Hrkm.Decode.{from_le_bytes, decode_segment}

-- `HRKM` and `HKMF`.
abbrev pub hrkm_magic : List ℕ
hrkm_magic = 0x48 ∷ 0x52 ∷ 0x4B ∷ 0x4D ∷ []

abbrev pub hrkm_footer_magic : List ℕ
hrkm_footer_magic = 0x48 ∷ 0x4B ∷ 0x4D ∷ 0x46 ∷ []

abbrev pub hrkm_format_version : ℕ
hrkm_format_version = 1

abbrev pub hrkm_header_len : ℕ
hrkm_header_len = 64

abbrev pub hrkm_footer_len : ℕ
hrkm_footer_len = 96

abbrev pub footer_crc_offset : ℕ
footer_crc_offset = 92

abbrev pub hard_max_segments : ℕ
hard_max_segments = 2 ^ 24

abbrev pub hard_max_body_bytes : ℕ
hard_max_body_bytes = 512 * 1024 * 1024

-- `buf[from .. to]`, in bounds.
abbrev pub slice : List ℕ → ℕ → ℕ → List ℕ
slice buf from to = take (to - from) (drop from buf)

-- `buf[at .. at + bytes.len()].copy_from_slice(bytes)`, in bounds.
unfoldable pub copy_at : ℕ → List ℕ → List ℕ → List ℕ
copy_at at bytes buf = take at buf ++ (bytes ++ drop (at + length bytes) buf)

-- The loop over the segments.
unfoldable pub encode_segments : Platform → List ℕ → List SegmentDescriptorV2 → List ℕ
unfolding encode_segment
encode_segments p out [] = out
encode_segments p out (s ∷ ss) = encode_segments p (encode_segment p out s) ss

-- The first 60 bytes of the header, of which the last four are never written.
unfoldable pub header_fields : DatabaseManifest → List ℕ
header_fields m =
    hrkm_magic
    ++ (to_le_bytes 2 hrkm_format_version
        ++ (to_le_bytes 2 hrkm_header_len
            ++ (to_le_bytes 8 m.manifest_generation
                ++ (m.storage_namespace_id
                    ++ (to_le_bytes 8 m.cumulative_watermark
                        ++ (to_le_bytes 8 m.exported_through_lsn
                            ++ (to_le_bytes 4 (length m.segments_v2 % 2 ^ 32)
                                ++ (to_le_bytes 4 0 ++ replicate 4 0))))))))

unfoldable pub header : Platform → DatabaseManifest → List ℕ
unfolding header_fields crc32c_of
header p m = header_fields m ++ to_le_bytes 4 (crc32c_of p (header_fields m))

-- The footer up to its CRC, with the 12 bytes that are never written.
unfoldable pub footer_fields : Platform → DatabaseManifest → List ℕ → List ℕ
footer_fields p m body =
    hrkm_footer_magic
    ++ (to_le_bytes 2 1
        ++ (to_le_bytes 2 hrkm_footer_len
            ++ (to_le_bytes 8 (length body)
                ++ (p.blake3 body ++ (m.statistics_root_hash ++ replicate 12 0)))))

-- The footer before its CRC is known.
unfoldable pub footer : Platform → DatabaseManifest → List ℕ → List ℕ
unfolding footer_fields
footer p m body = footer_fields p m body ++ replicate 4 0

-- The CRC of the whole file, whose own field is zero, is written over that field.
unfoldable pub seal_file : Platform → List ℕ → List ℕ
unfolding crc32c_of copy_at
seal_file p out =
    copy_at (length out - hrkm_footer_len + footer_crc_offset) (to_le_bytes 4 (crc32c_of p out)) out

unfoldable pub encode_manifest : Platform → DatabaseManifest → V6Result (List ℕ)
unfolding encode_segments header footer seal_file
encode_manifest p m =
    if ltb hard_max_segments (length m.segments_v2)
    then err (corrupt "hrkm encode" too_many_segments)
    else let body = encode_segments p [] m.segments_v2 in
      if ltb hard_max_body_bytes (length body)
      then err (corrupt "hrkm encode" body_too_long)
      else ok (seal_file p (header p m ++ (body ++ footer p m body)))

-- A guard of `decode_manifest`, which refuses on true.
abbrev pub refuse : Bool → Fault → V6Result (Unit {0})
refuse true fault = err (corrupt "hrkm" fault)
refuse false fault = ok tt

unfoldable pub check_header : Platform → List ℕ → V6Result (Unit {0})
unfolding crc32c_of from_le_bytes
check_header p buf = do
  _ ← refuse (ltb (length buf) (hrkm_header_len + hrkm_footer_len)) file_too_small
  _ ← refuse (not (bytes_eq (slice buf 0 4) hrkm_magic)) bad_magic
  _ ← refuse (not (from_le_bytes (slice buf 4 6) == hrkm_format_version)) bad_version
  _ ← refuse (not (from_le_bytes (slice buf 6 8) == hrkm_header_len)) bad_header_len
  refuse (not (from_le_bytes (slice buf 60 64) == crc32c_of p (take 60 buf))) header_crc_differs

unfoldable pub check_footer : Platform → List ℕ → V6Result (Unit {0})
unfolding crc32c_of from_le_bytes copy_at
check_footer p buf = do
  let footer_at = length buf - hrkm_footer_len
  let f = drop footer_at buf
  _ ← refuse (not (bytes_eq (slice f 0 4) hrkm_footer_magic)) bad_footer_magic
  _ ← refuse (not (from_le_bytes (slice f 6 8) == hrkm_footer_len)) bad_footer_len
  let zeroed = copy_at (footer_at + footer_crc_offset) (replicate 4 0) buf
  refuse (not (from_le_bytes (slice f footer_crc_offset 96) == crc32c_of p zeroed)) file_crc_differs

unfoldable pub check_body : Platform → List ℕ → V6Result (Unit {0})
unfolding from_le_bytes
check_body p buf = do
  let footer_at = length buf - hrkm_footer_len
  let f = drop footer_at buf
  let body_len = from_le_bytes (slice f 8 16)
  _ ← refuse (leb (2 ^ p.usize_bits) body_len) body_len_exceeds_usize
  _ ← refuse (not (body_len == footer_at - hrkm_header_len)) body_len_differs
  refuse (not (bytes_eq (p.blake3 (slice buf hrkm_header_len footer_at)) (slice f 16 48)))
      body_digest_differs

-- The loop of `segment_count` rounds.
unfoldable pub decode_segments : Platform → List ℕ → ℕ → ℕ → V6Result (List SegmentDescriptorV2 × ℕ)
unfolding decode_segment
decode_segments p body zero pos = ok ([], pos)
decode_segments p body (suc n) pos = do
  (s, pos) ← decode_segment p body pos
  (ss, pos) ← decode_segments p body n pos
  ok (s ∷ ss, pos)

-- Whether some window of two segments is out of order.
unfoldable pub some_unordered : List SegmentDescriptorV2 → Bool
some_unordered [] = false
some_unordered (s ∷ []) = false
some_unordered (s ∷ t ∷ ss) = if ltb t.first_lsn s.first_lsn then true else some_unordered (t ∷ ss)

unfoldable pub decode_body : Platform → List ℕ → ℕ → V6Result (List SegmentDescriptorV2)
unfolding decode_segments some_unordered
decode_body p body segment_count = do
  _ ← refuse (ltb hard_max_segments segment_count) too_many_segments
  (ss, pos) ← decode_segments p body segment_count 0
  _ ← refuse (not (pos == length body)) trailing_bytes
  _ ← refuse (some_unordered ss) segments_unordered
  ok ss

unfoldable pub decode_manifest : Platform → List ℕ → V6Result DatabaseManifest
unfolding check_header check_footer check_body decode_body from_le_bytes
decode_manifest p buf = do
  _ ← check_header p buf
  _ ← check_footer p buf
  _ ← check_body p buf
  let footer_at = length buf - hrkm_footer_len
  ss ← decode_body p (slice buf hrkm_header_len footer_at) (from_le_bytes (slice buf 48 52))
  ok record {
    manifest_version = hrkm_format_version;
    format_identifier = hrkm_magic;
    segments = [];
    cumulative_watermark = from_le_bytes (slice buf 32 40);
    statistics_root_hash = slice (drop footer_at buf) 48 80;
    storage_namespace_id = slice buf 16 32;
    manifest_generation = from_le_bytes (slice buf 8 16);
    segments_v2 = ss;
    exported_through_lsn = from_le_bytes (slice buf 40 48);
  }
