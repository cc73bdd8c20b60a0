-- ===== src/Kernel.antt =====
-- hume-kernel: codecs for columns of u64.
pub mod Rle
pub mod Delta
mod Tests
