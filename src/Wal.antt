-- ===== src/Wal.antt =====
-- include/ome/wal.hpp and include/ome/crc32.hpp: the write-ahead log.
pub mod Command
pub mod Crc
pub mod Log
pub mod Record
pub mod Replay
pub mod Crash
pub mod Recovery
pub mod Cut
pub mod Rewrite
pub mod Truncate
