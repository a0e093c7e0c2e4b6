-- ===== src/Thread.antt =====
-- include/ome/matching_thread.hpp: the single writer of the book.
pub mod Risk
pub mod State
pub mod Routing
pub mod Apply
pub mod Loop
pub mod Amount
pub mod Tracks
pub mod Fills
pub mod Ledger
pub mod Settled
pub mod NewOrder
pub mod Cancels
pub mod CancelIds
pub mod Gate
pub mod Total
pub mod Retire
pub mod Live
pub mod Machine
pub mod Acts
pub mod Determined
pub mod Durable
pub mod Recovery
pub mod Runs
pub mod Crash
pub mod Bounds
pub mod Restore
pub mod Ranked
pub mod Restart
pub mod Takeover
pub mod Restarted
