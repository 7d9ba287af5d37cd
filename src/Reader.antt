-- ===== src/Reader.antt =====
-- src/reader: the two readers.
mod Examples
pub mod Buffered
pub mod Mmap
