-- ===== src/Outbox.antt =====
-- The outbox of internal/store (outbox.go, statements_outbox.go, schema14.sql, and Retry and
-- CancelDeliveries): intents, leases, the turns of streams, and backoffs.
pub mod Rows
pub mod Operations
pub mod Manual
pub mod Ids
pub mod Leases
pub mod Exclusion
pub mod Trace
pub mod Fencing
pub mod Pause
pub mod Readings
pub mod Due
pub mod Progress
mod Examples
