-- ===== src/Postgres.antt =====
-- storage/postgres
pub mod Table
pub mod Statements
pub mod Session
pub mod Ack
pub mod Claim
pub mod Enqueue
pub mod Admin
pub mod Rows
pub mod Lifecycle
pub mod EnqueueBatch
pub mod Calls
pub mod Invariant
pub mod Acking
pub mod Ordering
pub mod Claiming
pub mod Dedup
pub mod Adapter
pub mod Purging
