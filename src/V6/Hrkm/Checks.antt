-- ===== src/V6/Hrkm/Checks.antt =====
-- The checks of `decode_manifest` in heraclitus-log/src/v6/manifest.rs on a file that `encode_manifest` wrote.
use crates.Prelude.{ℕ, ◌+◌, ◌-◌, ◌^◌, ◌%◌, ◌≤◌, ◌<◌, ◌≡◌, refl, sym, arith}
use crates.Prelude.{
  List, [], ◌++◌, append_assoc, append-nil, length, take, drop, replicate, length-append,
}
use crates.Prelude.{take-append_self, drop-append_self}
use crates.Core.Runtime.{DatabaseManifest}
use crates.V6.Platform.{Platform, IsPlatform, crc32c_of}
use crates.V6.Error.{ok}
use crates.V6.Merkle.{to_le_bytes}
use crates.V6.Merkle.Collision.{length-to_le_bytes}
use crates.V6.Hrkm.Decode.{from_le_bytes}
use crates.V6.Hrkm.Reading.{IsAt, IsAt-start}
use crates.V6.Hrkm.Segments.{from_le_bytes-to_le_bytes, not_below}
use crates.Prelude.{not, false, ◌==◌, leb}
use crates.Prelude.Bytes.{bytes_eq, bytes_eq_refl}
use crates.V6.Hrkm.Frame.{
  slice, header_fields, footer_fields, copy_at, hrkm_magic, hrkm_footer_magic, check_header,
  check_footer, check_body,
}
use crates.V6.Hrkm.Layout.{slice-IsAt, length-header_fields}

-- A number of `w` bytes, as a slice gives it.
pub read_field :
    (buf : List ℕ) (from to w n : ℕ)
    → slice buf from to ≡ to_le_bytes w n
    → n < 256 ^ w
    → from_le_bytes (slice buf from to) ≡ n
read_field buf from to w n e h = rw e (from_le_bytes-to_le_bytes w n h)

bytes_same : (a b : List ℕ) → a ≡ b → not (bytes_eq a b) ≡ false
bytes_same a b e = rw e (rw (bytes_eq_refl b) refl)

not_reached : (a b : ℕ) → a < b → leb b a ≡ false
not_reached a b h = ground arith

pub numbers_same : (a b : ℕ) → a ≡ b → not (a == b) ≡ false
numbers_same a b e = ground (arith, e)

pub check_header-ok :
    (p : Platform) (buf : List ℕ)
    → 160 ≤ length buf
    → slice buf 0 4 ≡ hrkm_magic
    → from_le_bytes (slice buf 4 6) ≡ 1
    → from_le_bytes (slice buf 6 8) ≡ 64
    → from_le_bytes (slice buf 60 64) ≡ crc32c_of p (take 60 buf)
    → check_header p buf ≡ ok tt
unfolding check_header
check_header-ok p buf long magic version header_len crc = rw (not_below _ _ long) (
    rw (bytes_same _ _ magic) (
      rw (numbers_same _ _ version)
        (rw (numbers_same _ _ header_len) (rw (numbers_same _ _ crc) refl))))

pub check_footer-ok :
    (p : Platform) (buf f : List ℕ)
    → drop (length buf - 96) buf ≡ f
    → slice f 0 4 ≡ hrkm_footer_magic
    → from_le_bytes (slice f 6 8) ≡ 96
    → from_le_bytes (slice f 92 96)
      ≡ crc32c_of p (copy_at (length buf - 96 + 92) (replicate 4 0) buf)
    → check_footer p buf ≡ ok tt
unfolding check_footer
check_footer-ok p buf f e magic footer_len crc =
    rw e (
      rw (bytes_same _ _ magic) (rw (numbers_same _ _ footer_len) (rw (numbers_same _ _ crc) refl)))

pub check_body-ok :
    (p : Platform) (buf f : List ℕ)
    → drop (length buf - 96) buf ≡ f
    → from_le_bytes (slice f 8 16) ≡ length buf - 96 - 64
    → length buf < 2 ^ p.usize_bits
    → p.blake3 (slice buf 64 (length buf - 96)) ≡ slice f 16 48
    → check_body p buf ≡ ok tt
unfolding check_body
check_body-ok p buf f e body_len short digest =
    let fits : leb (2 ^ p.usize_bits) (from_le_bytes (slice f 8 16)) ≡ false =
      not_reached _ _ (omega (arith, body_len, short)) in
    rw e (rw fits (rw (numbers_same _ _ body_len) (rw (bytes_same _ _ digest) refl)))

module _ (m : DatabaseManifest) where
  -- The fields of the header in `buf`, with `rest` behind the 60 bytes.
  pub record HasHeader (buf rest : List ℕ) : Type 0 where
    pub magic : slice buf 0 4 ≡ hrkm_magic
    pub version : slice buf 4 6 ≡ to_le_bytes 2 1
    pub header_len : slice buf 6 8 ≡ to_le_bytes 2 64
    pub generation : slice buf 8 16 ≡ to_le_bytes 8 m.manifest_generation
    pub namespace : slice buf 16 32 ≡ m.storage_namespace_id
    pub watermark : slice buf 32 40 ≡ to_le_bytes 8 m.cumulative_watermark
    pub exported : slice buf 40 48 ≡ to_le_bytes 8 m.exported_through_lsn
    pub count : slice buf 48 52 ≡ to_le_bytes 4 (length m.segments_v2 % 2 ^ 32)
    pub covered : take 60 buf ≡ header_fields m
    pub behind : IsAt buf 60 rest

  first_60 :
      (rest : List ℕ)
      → length m.storage_namespace_id ≡ 16
      → (take 60 (header_fields m ++ rest) ≡ header_fields m)
        × IsAt (header_fields m ++ rest) 60 rest
  first_60 rest e =
      let l = length-header_fields m e in
      (
        rw (sym l) (take-append_self (header_fields m) rest),
        (
          rw (sym l) (drop-append_self (header_fields m) rest),
          omega (arith, l, length-append (header_fields m) rest),
        ),
      )

  pub header_fields-HasHeader :
      (rest : List ℕ)
      → length m.storage_namespace_id ≡ 16
      → HasHeader (header_fields m ++ rest) rest
  unfolding header_fields
  header_fields-HasHeader rest e =
      let buf = header_fields m ++ rest in
      let behind_magic =
        to_le_bytes 2 1
        ++ (to_le_bytes 2 64
            ++ (to_le_bytes 8 m.manifest_generation
                ++ (m.storage_namespace_id
                    ++ (to_le_bytes 8 m.cumulative_watermark
                        ++ (to_le_bytes 8 m.exported_through_lsn
                            ++ (to_le_bytes 4 (length m.segments_v2 % 2 ^ 32)
                                ++ (to_le_bytes 4 0 ++ (replicate 4 0 ++ rest)))))))) in
      let whole : header_fields m ++ rest ≡ hrkm_magic ++ behind_magic = simp append_assoc refl in
      let (f1, h1) = slice-IsAt buf hrkm_magic behind_magic 0 4 refl (IsAt-start buf _ whole) in
      let (f2, h2) = slice-IsAt buf (to_le_bytes 2 1) _ 4 2 (length-to_le_bytes 2 1) h1 in
      let (f3, h3) = slice-IsAt buf (to_le_bytes 2 64) _ 6 2 (length-to_le_bytes 2 64) h2 in
      let (f4, h4) =
        slice-IsAt buf (to_le_bytes 8 m.manifest_generation) _ 8 8 (length-to_le_bytes 8 _) h3 in
      let (f5, h5) = slice-IsAt buf m.storage_namespace_id _ 16 16 e h4 in
      let (f6, h6) =
        slice-IsAt buf (to_le_bytes 8 m.cumulative_watermark) _ 32 8 (length-to_le_bytes 8 _) h5 in
      let (f7, h7) =
        slice-IsAt buf (to_le_bytes 8 m.exported_through_lsn) _ 40 8 (length-to_le_bytes 8 _) h6 in
      let (f8, h8) =
        slice-IsAt buf (to_le_bytes 4 (length m.segments_v2 % 2 ^ 32)) _ 48 4
          (length-to_le_bytes 4 _) h7 in
      record {
        magic = f1;
        version = f2;
        header_len = f3;
        generation = f4;
        namespace = f5;
        watermark = f6;
        exported = f7;
        count = f8;
        covered = (first_60 rest e).0;
        behind = (first_60 rest e).1;
      }

module _ (p : Platform) (m : DatabaseManifest) (body : List ℕ) where
  -- The fields of the footer `f`.
  pub record HasFooter (f : List ℕ) : Type 0 where
    pub magic : slice f 0 4 ≡ hrkm_footer_magic
    pub footer_len : slice f 6 8 ≡ to_le_bytes 2 96
    pub body_len : slice f 8 16 ≡ to_le_bytes 8 (length body)
    pub digest : slice f 16 48 ≡ p.blake3 body
    pub statistics : slice f 48 80 ≡ m.statistics_root_hash

  pub footer_fields-HasFooter :
      (crc : List ℕ)
      → IsPlatform p
      → length m.statistics_root_hash ≡ 32
      → length crc ≡ 4
      → HasFooter (footer_fields p m body ++ crc)
        × (slice (footer_fields p m body ++ crc) 92 96 ≡ crc)
  unfolding footer_fields
  footer_fields-HasFooter crc lawful e l =
      let f = footer_fields p m body ++ crc in
      let behind_magic =
        to_le_bytes 2 1
        ++ (to_le_bytes 2 96
            ++ (to_le_bytes 8 (length body)
                ++ (p.blake3 body
                    ++ (m.statistics_root_hash ++ (replicate 12 0 ++ (crc ++ [])))))) in
      let whole : footer_fields p m body ++ crc ≡ hrkm_footer_magic ++ behind_magic =
        simp (append_assoc, append-nil) refl in
      let (f1, h1) = slice-IsAt f hrkm_footer_magic behind_magic 0 4 refl (IsAt-start f _ whole) in
      let (f2, h2) = slice-IsAt f (to_le_bytes 2 1) _ 4 2 (length-to_le_bytes 2 1) h1 in
      let (f3, h3) = slice-IsAt f (to_le_bytes 2 96) _ 6 2 (length-to_le_bytes 2 96) h2 in
      let (f4, h4) = slice-IsAt f (to_le_bytes 8 (length body)) _ 8 8 (length-to_le_bytes 8 _) h3 in
      let (f5, h5) = slice-IsAt f (p.blake3 body) _ 16 32 (lawful.digest body) h4 in
      let (f6, h6) = slice-IsAt f m.statistics_root_hash _ 48 32 e h5 in
      let (f7, h7) = slice-IsAt f (replicate 12 0) _ 80 12 refl h6 in
      let (f8, h8) = slice-IsAt f crc [] 92 4 l h7 in
      (record { magic = f1; footer_len = f3; body_len = f4; digest = f5; statistics = f6 }, f8)
