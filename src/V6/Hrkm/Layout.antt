-- ===== src/V6/Hrkm/Layout.antt =====
-- The bytes of a `.hrkm` file of heraclitus-log/src/v6/manifest.rs, field after field.
use crates.Prelude.{ℕ, ◌+◌, ◌-◌, ◌≤◌, ◌≡◌, refl, sym, ap, ◌∙◌, arith}
use crates.Prelude.{
  List, [], ◌∷◌, ◌++◌, append_assoc, append-nil, length, drop, replicate, All, length-append,
}
use crates.Prelude.{take-append_self, drop-append_self, drop-drop}
use crates.Core.Runtime.{SegmentDescriptorV2, DatabaseManifest}
use crates.V6.Platform.{Platform, IsPlatform, crc32c_of}
use crates.V6.Merkle.{to_le_bytes}
use crates.V6.Merkle.Collision.{length-to_le_bytes}
use crates.V6.Hrkm.{encode_segment}
use crates.V6.Hrkm.Reading.{IsAt, IsAt-append}
use crates.V6.Varint.{IsU64}
use crates.V6.Error.{ok}
use crates.Prelude.{ltb, false}
use crates.V6.Hrkm.Segments.{IsSegment, not_below, segment_then, encode_segment-then}
use crates.V6.Hrkm.Frame.{
  slice, copy_at, encode_segments, header_fields, header, footer_fields, footer, seal_file,
  encode_manifest, hard_max_segments, hard_max_body_bytes,
}

-- The field that stands at the position, and what follows it.
pub slice-IsAt :
    (buf s rest : List ℕ) (from n : ℕ)
    → length s ≡ n
    → IsAt buf from (s ++ rest)
    → (slice buf from (from + n) ≡ s) × IsAt buf (from + n) rest
slice-IsAt buf s rest from n l h =
    let k = IsAt-append buf s rest from h in
    let e : from + n - from ≡ length s = omega arith in
    (rw e (rw h.0 (take-append_self s rest)), rw (sym l) k)

pub copy_at-append :
    (a old new rest : List ℕ)
    → length new ≡ length old
    → copy_at (length a) new (a ++ (old ++ rest)) ≡ a ++ (new ++ rest)
unfolding copy_at
copy_at-append a old new rest e =
    let kept : drop (length a + length new) (a ++ (old ++ rest)) ≡ rest =
      sym (drop-drop (length a) (length new) (a ++ (old ++ rest)))
      ∙ rw (drop-append_self a (old ++ rest)) (rw e (drop-append_self old rest)) in
    rw (kept, take-append_self a (old ++ rest)) refl

pub length-header_fields :
    (m : DatabaseManifest) → length m.storage_namespace_id ≡ 16 → length (header_fields m) ≡ 60
unfolding header_fields
length-header_fields m e = simp (length-append, length-to_le_bytes) (omega (arith, e))

module _ (p : Platform) where
  abbrev pub segments_then : List SegmentDescriptorV2 → List ℕ → List ℕ
  segments_then [] rest = rest
  segments_then (s ∷ ss) rest = segment_then p s (segments_then ss rest)

  pub encode_segments-then :
      (out : List ℕ) (ss : List SegmentDescriptorV2) (rest : List ℕ)
      → encode_segments p out ss ++ rest ≡ out ++ segments_then ss rest
  unfolding encode_segments
  encode_segments-then out [] rest = refl
  encode_segments-then out (s ∷ ss) rest =
      encode_segments-then (encode_segment p out s) ss rest
      ∙ encode_segment-then p out s (segments_then ss rest)

  pub length-footer_fields :
      (m : DatabaseManifest) (body : List ℕ)
      → IsPlatform p
      → length m.statistics_root_hash ≡ 32
      → length (footer_fields p m body) ≡ 92
  unfolding footer_fields
  length-footer_fields m body lawful e =
      simp (length-append, length-to_le_bytes) (omega (arith, e, lawful.digest body))

seal_file-front :
    (p : Platform) (front : List ℕ)
    → 92 ≤ length front
    → seal_file p (front ++ replicate 4 0)
      ≡ front ++ to_le_bytes 4 (crc32c_of p (front ++ replicate 4 0))
unfolding seal_file
seal_file-front p front h =
    let out = front ++ replicate 4 0 in
    let crc = to_le_bytes 4 (crc32c_of p out) in
    let e : length out - 96 + 92 ≡ length front =
      omega (arith, length-append front (replicate 4 0)) in
    let k = copy_at-append front (replicate 4 0) crc [] (length-to_le_bytes 4 (crc32c_of p out)) in
    rw e (
      ap (copy_at (length front) crc) (sym (append-nil out) ∙ append_assoc front _ [])
      ∙ k
      ∙ rw append-nil refl)

-- What the writer of a manifest may rely on: the fields are those of the Rust record, the segments are
-- well formed and in order of their first LSN, and the limits of the format hold.
abbrev pub Ascending : List SegmentDescriptorV2 → Type 0
Ascending [] = Unit {0}
Ascending (s ∷ []) = Unit {0}
Ascending (s ∷ t ∷ ss) = (s.first_lsn ≤ t.first_lsn) × Ascending (t ∷ ss)

pub record IsManifest (p : Platform) (m : DatabaseManifest) : Type 0 where
  pub manifest_generation : IsU64 m.manifest_generation
  pub storage_namespace_id : length m.storage_namespace_id ≡ 16
  pub cumulative_watermark : IsU64 m.cumulative_watermark
  pub exported_through_lsn : IsU64 m.exported_through_lsn
  pub statistics_root_hash : length m.statistics_root_hash ≡ 32
  pub segments : All (IsSegment p) m.segments_v2
  pub ascending : Ascending m.segments_v2
  pub few : length m.segments_v2 ≤ hard_max_segments
  pub short : length (encode_segments p [] m.segments_v2) ≤ hard_max_body_bytes

module _ (p : Platform) (m : DatabaseManifest) where
  abbrev pub body_of : List ℕ
  body_of = encode_segments p [] m.segments_v2

  -- The file before its CRC, and what its CRC is taken of.
  abbrev pub front_of : List ℕ
  front_of = header p m ++ (body_of ++ footer_fields p m body_of)

  abbrev pub unsealed : List ℕ
  unsealed = front_of ++ replicate 4 0

  abbrev pub crc_of : List ℕ
  crc_of = to_le_bytes 4 (crc32c_of p unsealed)

  abbrev pub file_of : List ℕ
  file_of = front_of ++ crc_of

  pub length-front_of : IsPlatform p → IsManifest p m → length front_of ≡ 156 + length body_of
  unfolding header
  length-front_of lawful w =
      let h = length-header_fields m w.storage_namespace_id in
      let f = length-footer_fields p m body_of lawful w.statistics_root_hash in
      simp (length-append, length-to_le_bytes) (omega (arith, h, f))

  whole-front_of : header p m ++ (body_of ++ footer p m body_of) ≡ unsealed
  unfolding footer
  whole-front_of = simp append_assoc refl

  -- What the writer makes of a manifest within the limits.
  pub encode_manifest-file_of : IsPlatform p → IsManifest p m → encode_manifest p m ≡ ok file_of
  unfolding encode_manifest
  encode_manifest-file_of lawful w =
      let few : ltb hard_max_segments (length m.segments_v2) ≡ false = not_below _ _ w.few in
      let short : ltb hard_max_body_bytes (length body_of) ≡ false = not_below _ _ w.short in
      let sealed = seal_file-front p front_of (omega (arith, length-front_of lawful w)) in
      let written : encode_manifest p m
          ≡ ok (seal_file p (header p m ++ (body_of ++ footer p m body_of))) =
        rw few (rw short refl) in
      written ∙ ap (λ out. ok (seal_file p out)) whole-front_of ∙ ap ok sealed
