-- ===== src/Core.antt =====
-- The crate heraclitus-core.
pub mod Runtime
pub mod Codes
pub mod Hlc
pub mod Budget
