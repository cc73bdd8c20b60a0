-- ===== src/V6/Receipts.antt =====
-- What the catalogue takes from a sealed segment (heraclitus-log/src/v6/footer.rs) and from the
-- packer (heraclitus-log/src/v6/receipts.rs).
use crates.Prelude.{ℕ, List}
use crates.Core.Runtime.{CompressionCodec}

-- heraclitus-log/src/v6/footer.rs: the footer of a sealed segment.
pub record FooterV6 : Type 0 where
  pub record_count : ℕ
  pub min_lsn : ℕ
  pub max_lsn : ℕ
  pub min_hlc : ℕ
  pub max_hlc : ℕ
  pub block_count : ℕ
  pub flags : ℕ
  pub block_directory_offset : ℕ
  pub block_directory_len : ℕ
  pub logical_root : List ℕ

-- heraclitus-log/src/v6/receipts.rs: what the packer certifies.
pub record PackReceipt : Type 0 where
  pub segment_id : ℕ
  pub storage_namespace_id : List ℕ
  pub source_generation : ℕ
  pub source_physical_digest : List ℕ
  pub target_generation : ℕ
  pub target_physical_digest : List ℕ
  pub logical_root : List ℕ
  pub canonical_codec : ℕ
  pub codec : CompressionCodec
  pub block_size : ℕ
  pub first_lsn : ℕ
  pub last_lsn : ℕ
  pub record_count : ℕ
  pub source_physical_size : ℕ
  pub target_physical_size : ℕ
  pub packer_version : ℕ
  pub created_hlc : ℕ
