-- ===== src/Wire.antt =====
-- include/ome/protocol.hpp and include/ome/frame_reader.hpp: the wire protocol.
pub mod Bytes
pub mod Messages
pub mod Codec
pub mod Layout
pub mod RoundTrip
pub mod Updates
pub mod Canonical
pub mod Frames
pub mod Stream
pub mod Delivery
pub mod Whole
