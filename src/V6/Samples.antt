-- ===== src/V6/Samples.antt =====
-- Catalogues that the tests of heraclitus-log/src/v6/manifest.rs and gc.rs run on.
use crates.Prelude.{◌*◌, ◌^◌, [], ◌∷◌, none, false}
use crates.Core.Runtime.{
  PhysicalLayout, CompressionCodec, GenerationState, PhysicalGeneration, DerivedArtifactRef,
  SegmentDescriptorV2, DatabaseManifest, default_retention,
}
use crates.V6.Receipts.{FooterV6, PackReceipt}
use crates.V6.Gc.{GcOptions}

abbrev pub original : PhysicalGeneration
original = record {
  generation = 0;
  layout = PhysicalLayout.raw;
  compression = CompressionCodec.raw;
  location = "seg-1.raw";
  physical_size = 4096;
  physical_digest = 1 ∷ [];
  state = GenerationState.superseded;
  created_hlc = 0;
  verified_hlc = 0;
  superseded_hlc = 2 ^ 16;
  verified_copies = 1;
}

abbrev pub packed : PhysicalGeneration
packed = record {
  generation = 1;
  layout = PhysicalLayout.packed;
  compression = CompressionCodec.zstd;
  location = "seg-1.hrkp";
  physical_size = 1024;
  physical_digest = 2 ∷ [];
  state = GenerationState.active;
  created_hlc = 2 ^ 16;
  verified_hlc = 2 ^ 16;
  superseded_hlc = 0;
  verified_copies = 1;
}

abbrev pub one_segment : SegmentDescriptorV2
one_segment = record {
  segment_id = 1;
  first_lsn = 1;
  last_lsn = 10;
  record_count = 10;
  canonical_codec = 1;
  logical_root = 7 ∷ [];
  min_hlc = 1;
  max_hlc = 2;
  active_generation = 1;
  generations = original ∷ packed ∷ [];
  hrki = none;
  parquet = none;
  retention = default_retention;
}

abbrev pub one_manifest : DatabaseManifest
one_manifest = record {
  manifest_version = 2;
  format_identifier = [];
  segments = [];
  cumulative_watermark = 10;
  statistics_root_hash = [];
  storage_namespace_id = [];
  manifest_generation = 1;
  segments_v2 = one_segment ∷ [];
  exported_through_lsn = 0;
}

-- Two days after the original was superseded.
abbrev pub late : GcOptions
late = record { now_hlc = 172_800_001 * 2 ^ 16; keep_manifests = 2; collect_quarantined = false }

abbrev pub no_segments : DatabaseManifest
no_segments = record one_manifest { segments_v2 = []; cumulative_watermark = 0 }

abbrev pub one_footer : FooterV6
one_footer = record {
  record_count = 10;
  min_lsn = 1;
  max_lsn = 10;
  min_hlc = 1;
  max_hlc = 2;
  block_count = 1;
  flags = 0;
  block_directory_offset = 4096;
  block_directory_len = 64;
  logical_root = 7 ∷ [];
}

abbrev pub one_receipt : PackReceipt
one_receipt = record {
  segment_id = 1;
  storage_namespace_id = [];
  source_generation = 0;
  source_physical_digest = 1 ∷ [];
  target_generation = 1;
  target_physical_digest = 2 ∷ [];
  logical_root = 7 ∷ [];
  canonical_codec = 1;
  codec = CompressionCodec.zstd;
  block_size = 65_536;
  first_lsn = 1;
  last_lsn = 10;
  record_count = 10;
  source_physical_size = 4096;
  target_physical_size = 1024;
  packer_version = 1;
  created_hlc = 2 ^ 16;
}

abbrev pub one_artifact : DerivedArtifactRef
one_artifact = record {
  location = "seg-1.parquet";
  size = 512;
  digest = 3 ∷ [];
  logical_root = 7 ∷ [];
  created_hlc = 0;
}
