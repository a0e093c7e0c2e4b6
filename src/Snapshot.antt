-- ===== src/Snapshot.antt =====
-- include/ome/snapshot.hpp: the resting orders on disk.
pub mod Format
pub mod RoundTrip
