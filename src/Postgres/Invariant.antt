-- ===== src/Postgres/Invariant.antt =====
-- The invariant of the tables between two statements.
pub mod Messages
pub mod Keys
pub mod History
pub mod Statements
pub mod Runs
use tickr.Prelude.{
  ℕ, ◌+◌, ◌<◌, Bool, true, false, ◌&&◌, ◌||◌, List, ◌≡◌, ◌≢◌, is_some, All, ◌==◌, ◌≤◌,
}
use tickr.Prelude.Distinct.{Distinct}
use tickr.Message.{Status}
use tickr.Postgres.Table.{Row, HistoryRow, Db, is_handling, is_finished}
use tickr.Postgres.Statements.{conflicts}
use tickr.Postgres.Session.{Config}
use tickr.Postgres.Rows.{UniqueIds}

-- A message has a lease and an owner exactly while it is HANDLING, and a completion time exactly
-- once it is SUCCESS or DEAD. FAILED is never stored. A message that is or was handled to the end
-- has been attempted, a CREATED one has not.
pub record RowOk (r : Row) : Type 0 where
  pub owned : is_some r.claimed_by ≡ is_handling r.status
  pub leased : is_some r.claimed_until ≡ is_handling r.status
  pub completed : is_some r.completed_at ≡ is_finished r.status
  pub unfailed : r.status ≢ Status.failed
  pub attempted : (is_handling r.status || is_finished r.status) ≡ true → 0 < r.attempt
  pub fresh : r.status ≡ Status.created → r.attempt ≡ 0
  pub budget : 0 < r.max_attempts
  pub sharded : r.shard < 16

-- Two rows clash on (event_type, idempotency_key).
abbrev pub clash : Row → Row → Bool
clash old new = conflicts false new old

-- Two history rows have one primary key.
abbrev pub same_entry : HistoryRow → HistoryRow → Bool
same_entry a b = a.message_id == b.message_id && a.seq == b.seq

pub record Inv (c : Config) (db : Db) : Type 0 where
  pub ids : UniqueIds db.messages
  pub rows : All RowOk db.messages
  pub keys : c.partitioned ≡ false → Distinct clash db.messages
  pub entries : Distinct same_entry db.history
