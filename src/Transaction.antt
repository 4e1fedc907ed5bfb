-- ===== src/Transaction.antt =====
-- Durable destination transactions (crates/gateway/src/transaction).
pub mod State
pub mod Json
pub mod Operation
pub mod Capability
pub mod Journal
pub mod Backend
pub mod Reconciler
pub mod Sink
pub mod Memory
pub mod ChildId
pub mod Rows
pub mod Quota
pub mod Spool
mod Fixtures
mod Examples
