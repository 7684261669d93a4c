-- ===== src/Postgres/Statements.antt =====
-- The SQL statements of storage/postgres/postgres.go, each a function of the database's clock
-- `now`, its arguments and the tables.
mod Inserts
mod Claims
mod Acks
mod Upkeep
unfoldable pub use Inserts.*
unfoldable pub use Claims.*
unfoldable pub use Acks.*
unfoldable pub use Upkeep.*
