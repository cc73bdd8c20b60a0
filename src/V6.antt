-- ===== src/V6.antt =====
-- The segment format v6 of heraclitus-log (heraclitus-log/src/v6).
pub mod Platform
pub mod Error
pub mod Varint
pub mod Merkle
pub mod Receipts
pub mod SegmentCheck
pub mod Manifest
pub mod Pins
pub mod Gc
pub mod Hrkm
pub mod Store
pub mod Lifecycle
pub mod Samples
