-- ===== src/Queue.antt =====
-- src/queue: the two queues between a reader and a writer, and what a wait on one can end in.
mod Examples
pub mod Buffer
pub mod Wait
pub mod Fixed
pub mod Synchronized
