-- ===== src/Mysql.antt =====
-- storage/mysql/mysql.go: the MySQL store. Its tables have the columns of the Postgres store's, and
-- where a statement is the same, so is its model.
pub mod Session
pub mod Statements
pub mod Enqueue
pub mod Claim
pub mod Ack
pub mod Admin
pub mod Calls
pub mod Lifecycle
pub mod Acking
pub mod Claiming
pub mod Atomicity
