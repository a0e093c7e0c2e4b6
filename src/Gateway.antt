-- ===== src/Gateway.antt =====
-- The parts of the gateway beside its protocol.
pub mod WriteBuffer
pub mod Session
pub mod Events
