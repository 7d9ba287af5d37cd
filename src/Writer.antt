-- ===== src/Writer.antt =====
-- src/writer: the two writers.
mod Examples
pub mod Buffered
pub mod Mmap
