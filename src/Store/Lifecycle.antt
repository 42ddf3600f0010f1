-- ===== src/Store/Lifecycle.antt =====
-- The life of an inbox message under the operations of the inbox, its claims and its settlement.
pub mod Rows
pub mod Steps
pub mod Invariant
