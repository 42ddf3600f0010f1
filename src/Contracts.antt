-- ===== src/Contracts.antt =====
-- The messages that the nodes exchange (src/contracts).
pub mod Json
pub mod Payload
pub mod Envelope
pub mod Identifiers
pub mod Evidence
