-- ===== src/Queue.antt =====
-- include/spsc_queue.h: the single-producer single-consumer ring between the threads.
pub mod Spsc
pub mod Window
pub mod Refine
pub mod Steps
pub mod Interleave
