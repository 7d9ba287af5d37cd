-- ===== src/Tool.antt =====
-- The copy tools of src/common.
pub mod Buffered
pub mod Parallel
pub mod Shared
