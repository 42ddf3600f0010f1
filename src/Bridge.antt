-- ===== src/Bridge.antt =====
-- The worker between the store and the message broker (src/bridge/worker.ts).
pub mod Inbound
pub mod Outbound
