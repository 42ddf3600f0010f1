-- ===== src/Store.antt =====
-- The durable store (src/storage/database.ts): its tables, and its operations by table.
pub mod Schema
pub mod Outbox
pub mod Inbox
pub mod Claims
pub mod Settlement
pub mod Lifecycle
pub mod System
pub mod Authorization
pub mod Consultation
pub mod Deliveries
pub mod Queries
pub mod Status
