-- ===== src/Log.antt =====
-- heraclitus-log/src: the parts of the log crate beside the v6 format.
pub mod Crc
