-- ===== src/V6/Hrkm/RoundTrip.antt =====
-- `decode_manifest` after `encode_manifest`, of heraclitus-log/src/v6/manifest.rs.
use crates.Prelude.{ℕ, ◌+◌, ◌-◌, ◌^◌, ◌<◌, ◌≡◌, refl, sym, ap, ◌∙◌, arith}
use crates.Prelude.{
  List, [], ◌++◌, append_assoc, append-nil, length, drop, replicate, length-append,
}
use native.Mathlib.Nat.{pow-le-pow_right, mod-eq_of_lt}
use crates.Core.Runtime.{SegmentDescriptorV2, DatabaseManifest}
use crates.V6.Platform.{Platform, IsPlatform, crc32c_of, crc32c_of_lt}
use crates.V6.Error.{ok, bind-ok}
use crates.V6.Merkle.{to_le_bytes}
use crates.V6.Merkle.Collision.{length-to_le_bytes}
use crates.V6.Hrkm.Decode.{from_le_bytes}
use crates.V6.Hrkm.Frame.{
  hrkm_format_version, hrkm_magic, decode_body, slice, copy_at, header_fields, header,
  footer_fields, check_header, check_footer, check_body, decode_manifest, encode_manifest,
}
use crates.V6.Hrkm.Layout.{
  encode_manifest-file_of, segments_then, encode_segments-then, slice-IsAt, copy_at-append,
  length-front_of, IsManifest, body_of, front_of, unsealed, crc_of, file_of,
}
use crates.V6.Hrkm.Checks.{
  read_field, check_header-ok, check_footer-ok, check_body-ok, HasHeader, header_fields-HasHeader,
  HasFooter, footer_fields-HasFooter,
}
use crates.V6.Hrkm.Body.{decode_body-segments}

-- What a file of this version says of itself.
abbrev pub as_read : DatabaseManifest → DatabaseManifest
as_read m = record m {
  manifest_version = hrkm_format_version;
  format_identifier = hrkm_magic;
  segments = [];
}

decode_manifest-ok :
    (p : Platform) (buf : List ℕ) (ss : List SegmentDescriptorV2)
    → check_header p buf ≡ ok tt
    → check_footer p buf ≡ ok tt
    → check_body p buf ≡ ok tt
    → decode_body p (slice buf 64 (length buf - 96)) (from_le_bytes (slice buf 48 52)) ≡ ok ss
    → decode_manifest p buf
      ≡ ok record {
        manifest_version = hrkm_format_version;
        format_identifier = hrkm_magic;
        segments = [];
        cumulative_watermark = from_le_bytes (slice buf 32 40);
        statistics_root_hash = slice (drop (length buf - 96) buf) 48 80;
        storage_namespace_id = slice buf 16 32;
        manifest_generation = from_le_bytes (slice buf 8 16);
        segments_v2 = ss;
        exported_through_lsn = from_le_bytes (slice buf 40 48);
      }
unfolding decode_manifest
decode_manifest-ok p buf ss h f b e = bind-ok _ h (bind-ok _ f (bind-ok _ b (bind-ok _ e refl)))

module _ (p : Platform) (m : DatabaseManifest) (lawful : IsPlatform p) (w : IsManifest p m) where
  abbrev header_crc : List ℕ
  header_crc = to_le_bytes 4 (crc32c_of p (header_fields m))

  abbrev foot : List ℕ
  foot = footer_fields p m (body_of p m) ++ crc_of p m

  file_fields : file_of p m ≡ header_fields m ++ (header_crc ++ (body_of p m ++ foot))
  unfolding header
  file_fields = simp append_assoc refl

  pub file_of-HasHeader : HasHeader m (file_of p m) (header_crc ++ (body_of p m ++ foot))
  file_of-HasHeader =
      rw file_fields
        (header_fields-HasHeader m (header_crc ++ (body_of p m ++ foot)) w.storage_namespace_id)

  -- The checksum of the header, the body behind it, and the footer behind that.
  pub file_of_parts :
      (slice (file_of p m) 60 64 ≡ header_crc)
      × (slice (file_of p m) 64 (64 + length (body_of p m)) ≡ body_of p m)
      × (drop (64 + length (body_of p m)) (file_of p m) ≡ foot)
      × (length (file_of p m) ≡ 160 + length (body_of p m))
  file_of_parts =
      let buf = file_of p m in
      let body = body_of p m in
      let (f, h) =
        slice-IsAt buf header_crc (body ++ foot) 60 4 (length-to_le_bytes 4 _)
          file_of-HasHeader.behind in
      let (f', h') = slice-IsAt buf body foot 64 (length body) refl h in
      (
        f,
        f',
        h'.0,
        omega (
          arith,
          length-append (front_of p m) (crc_of p m),
          length-front_of p m lawful w,
          length-to_le_bytes 4 (crc32c_of p (unsealed p m)),
        ),
      )

  pub check_header-file_of : check_header p (file_of p m) ≡ ok tt
  check_header-file_of =
      let buf = file_of p m in
      let (c, _, _, l) = file_of_parts in
      let h = file_of-HasHeader in
      let fits : crc32c_of p (header_fields m) < 256 ^ 4 =
        omega (arith, crc32c_of_lt p (header_fields m)) in
      let crc = read_field buf 60 64 4 (crc32c_of p (header_fields m)) c fits in
      check_header-ok p buf (omega (arith, l)) h.magic
        (read_field buf 4 6 2 1 h.version (omega arith))
        (read_field buf 6 8 2 64 h.header_len (omega arith))
        (crc ∙ ap (crc32c_of p) (sym h.covered))

  -- Where the footer is found.
  footer_at :
      (length (file_of p m) - 96 ≡ 64 + length (body_of p m))
      × (drop (length (file_of p m) - 96) (file_of p m) ≡ foot)
  footer_at =
      let (_, _, d, l) = file_of_parts in
      let e : length (file_of p m) - 96 ≡ 64 + length (body_of p m) = omega (arith, l) in
      (e, ap (λ (n : ℕ). drop n (file_of p m)) e ∙ d)

  foot_fields : HasFooter p m (body_of p m) foot × (slice foot 92 96 ≡ crc_of p m)
  foot_fields =
      footer_fields-HasFooter p m (body_of p m) (crc_of p m) lawful w.statistics_root_hash
        (length-to_le_bytes 4 _)

  -- The file with its checksum zeroed is what the checksum was taken of.
  zeroed : copy_at (length (file_of p m) - 96 + 92) (replicate 4 0) (file_of p m) ≡ unsealed p m
  zeroed =
      let front = front_of p m in
      let l = length-front_of p m lawful w in
      let (e, _) = footer_at in
      let at : length (file_of p m) - 96 + 92 ≡ length front = omega (arith, e, l) in
      let whole : file_of p m ≡ front ++ (crc_of p m ++ []) =
        ap (λ (c : List ℕ). front ++ c) (sym (append-nil (crc_of p m))) in
      ap (λ (n : ℕ). copy_at n (replicate 4 0) (file_of p m)) at
      ∙ ap (copy_at (length front) (replicate 4 0)) whole
      ∙ copy_at-append front (crc_of p m) (replicate 4 0) [] (sym (length-to_le_bytes 4 _))

  pub check_footer-file_of : check_footer p (file_of p m) ≡ ok tt
  check_footer-file_of =
      let (h, c) = foot_fields in
      let crc =
        read_field foot 92 96 4 (crc32c_of p (unsealed p m)) c
          (omega (arith, crc32c_of_lt p (unsealed p m))) in
      check_footer-ok p (file_of p m) foot footer_at.1 h.magic
        (read_field foot 6 8 2 96 h.footer_len (omega arith)) (crc ∙ ap (crc32c_of p) (sym zeroed))

  short_file : length (file_of p m) < 2 ^ p.usize_bits
  short_file =
      let (_, _, _, l) = file_of_parts in
      omega (arith, l, w.short, pow-le-pow_right {n = 2} (omega arith) lawful.at_least)

  body_slice : slice (file_of p m) 64 (length (file_of p m) - 96) ≡ body_of p m
  body_slice =
      let (_, b, _, _) = file_of_parts in ap (λ (n : ℕ). slice (file_of p m) 64 n) footer_at.0 ∙ b

  pub check_body-file_of : check_body p (file_of p m) ≡ ok tt
  check_body-file_of =
      let body = body_of p m in
      let h = foot_fields.0 in
      let len = read_field foot 8 16 8 (length body) h.body_len (omega (arith, w.short)) in
      let e : length body ≡ length (file_of p m) - 96 - 64 = omega (arith, footer_at.0) in
      check_body-ok p (file_of p m) foot footer_at.1 (len ∙ e) short_file
        (ap p.blake3 body_slice ∙ sym h.digest)

  count_field : from_le_bytes (slice (file_of p m) 48 52) ≡ length m.segments_v2
  count_field =
      let n = length m.segments_v2 in
      let small : n < 2 ^ 32 = omega (arith, w.few) in
      read_field (file_of p m) 48 52 4 n
        (file_of-HasHeader.count ∙ ap (to_le_bytes 4) (mod-eq_of_lt small)) (omega (arith, small))

  decode_body-file_of :
      decode_body p
        (slice (file_of p m) 64 (length (file_of p m) - 96))
        (from_le_bytes (slice (file_of p m) 48 52))
      ≡ ok m.segments_v2
  decode_body-file_of =
      let body = body_of p m in
      let (_, _, _, l) = file_of_parts in
      let whole : body ≡ segments_then p m.segments_v2 [] =
        sym (append-nil body) ∙ encode_segments-then p [] m.segments_v2 [] in
      let short : length body < 2 ^ p.usize_bits = omega (arith, l, short_file) in
      ap (λ (b : List ℕ). decode_body p b (from_le_bytes (slice (file_of p m) 48 52))) body_slice
      ∙ ap (decode_body p body) count_field
      ∙ decode_body-segments p body lawful short (omega (arith, w.short)) m.segments_v2 w.segments
          w.ascending w.few whole

  decode_manifest-file_of : decode_manifest p (file_of p m) ≡ ok (as_read m)
  decode_manifest-file_of =
      let buf = file_of p m in
      let h = file_of-HasHeader in
      let generation =
        read_field buf 8 16 8 m.manifest_generation h.generation
          (omega (arith, w.manifest_generation)) in
      let watermark =
        read_field buf 32 40 8 m.cumulative_watermark h.watermark
          (omega (arith, w.cumulative_watermark)) in
      let exported =
        read_field buf 40 48 8 m.exported_through_lsn h.exported
          (omega (arith, w.exported_through_lsn)) in
      let statistics = ap (λ (f : List ℕ). slice f 48 80) footer_at.1 ∙ foot_fields.0.statistics in
      decode_manifest-ok p buf m.segments_v2 check_header-file_of check_footer-file_of
        check_body-file_of decode_body-file_of
      ∙ rw (generation, watermark, exported, statistics, h.namespace) refl

-- A manifest that is well formed and within the limits is written, and what was written is read back:
-- the same manifest, with the version and the magic of the format, and without its v1 view.
pub decode_manifest-encode_manifest :
    (p : Platform) (m : DatabaseManifest)
    → IsPlatform p
    → IsManifest p m
    → (file : List ℕ) × (encode_manifest p m ≡ ok file) × (decode_manifest p file ≡ ok (as_read m))
decode_manifest-encode_manifest p m lawful w =
    (file_of p m, encode_manifest-file_of p m lawful w, decode_manifest-file_of p m lawful w)
