-- ===== src/Postgres/Statements/Inserts.antt =====
-- storage/postgres/postgres.go: the statements that insert messages and history, and the lookup by key.
use tickr.Prelude.{
  ℕ, ◌+◌, String, List, [], ◌∷◌, ◌++◌, Bool, true, ◌&&◌, Option, none, some, ◌==◌, if◌then◌else◌,
  some_of, str_eq, is_some,
}
use tickr.Message.{Status}
use tickr.Postgres.Table.{Row, HistoryRow, Db, find_row, nullif, opt_is, same_key, max_seq}

-- One more entry of the history of message `i`.
abbrev pub entry :
    ℕ → ℕ → ℕ → Option Status → Status → ℕ → Option String → Option String → HistoryRow
entry now i n from to attempt error worker = record {
  message_id = i;
  seq = n;
  from_status = from;
  to_status = to;
  attempt = attempt;
  error = error;
  worker_id = worker;
  at = now;
}

-- appendHistorySQL
unfoldable pub append_history_sql : ℕ → ℕ → Option Status → Status → ℕ → String → String → Db → Db
append_history_sql now i from to attempt error worker db = record db {
  history = db.history ++ new ∷ [];
}
  where
    new : HistoryRow
    new = entry now i (max_seq i db.history + 1) from to attempt (nullif error) (nullif worker)

-- enqueueSQL and enqueueSQLPartitioned: whether ON CONFLICT skips the row. The partitioned index
-- has `created_at` too.
unfoldable pub conflicts : Bool → Row → Row → Bool
conflicts partitioned new r =
    same_key r.idempotency_key new.idempotency_key
    && (str_eq r.event_type new.event_type
        && (if partitioned then r.created_at == new.created_at else true))

-- What an INSERT comes to: the row that RETURNING gives, no row, or a primary key that is taken.
pub data Insert : Type 0 where
  inserted : Row → Insert
  skipped id_taken : Insert

unfoldable pub enqueue_sql : Bool → Row → Db → Insert × Db
enqueue_sql partitioned new db =
    if some_of (conflicts partitioned new) db.messages
    then (skipped, db)
    else if is_some (find_row new.id db.messages)
    then (id_taken, db)
    else (inserted new, record db { messages = db.messages ++ new ∷ [] })

-- findByIdemSQL; the row that QueryRow reads is the first
unfoldable pub find_by_idem_sql : String → String → List Row → Option Row
find_by_idem_sql event_type key [] = none
find_by_idem_sql event_type key (r ∷ rs) =
    if str_eq r.event_type event_type && opt_is key r.idempotency_key
    then some r
    else find_by_idem_sql event_type key rs
