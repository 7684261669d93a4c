-- ===== src/Postgres/Statements/Acks.antt =====
-- storage/postgres/postgres.go: the statements that acknowledge an attempt or extend its lease.
use tickr.Prelude.{
  ℕ, ◌+◌, ◌-◌, String, List, [], ◌∷◌, ◌++◌, map, Bool, ◌&&◌, none, some, ◌==◌, select, length,
}
use tickr.Message.{Status}
use tickr.Postgres.Table.{Row, HistoryRow, Db, update_where, nullif, opt_is, max_seq, is_handling}
use tickr.Postgres.Statements.Inserts.{entry}

-- WHERE id = $1 AND status = 'HANDLING' AND attempt = $2
unfoldable pub holds : ℕ → ℕ → Row → Bool
holds i attempt r = r.id == i && (is_handling r.status && r.attempt == attempt)

unfoldable pub succeed_row : ℕ → Row → Row
succeed_row now r = record r {
  status = Status.success;
  claimed_until = none;
  claimed_by = none;
  last_error = none;
  completed_at = some now;
  updated_at = now;
}

-- succeedNoHistorySQL
unfoldable pub succeed_no_history_sql : ℕ → ℕ → ℕ → Db → Db
succeed_no_history_sql now i attempt db = record db {
  messages = update_where (holds i attempt) (succeed_row now) db.messages;
}

-- succeedSQL: the history row is written for each row that the UPDATE returns.
unfoldable pub succeed_sql : ℕ → ℕ → ℕ → String → Db → Db
unfolding succeed_no_history_sql
succeed_sql now i attempt worker db = record (succeed_no_history_sql now i attempt db) {
  history = db.history ++ map new (map (succeed_row now) (select (holds i attempt) db.messages));
}
  where
    new : Row → HistoryRow
    new u =
        entry now u.id (max_seq i db.history + 1) (some Status.handling) Status.success u.attempt
          none (nullif worker)

unfoldable pub retry_row : ℕ → String → ℕ → Row → Row
retry_row now error next r = record r {
  status = Status.retrying;
  claimed_until = none;
  claimed_by = none;
  last_error = some error;
  process_at = next;
  updated_at = now;
}

unfoldable pub dead_row : ℕ → String → Row → Row
dead_row now error r = record r {
  status = Status.dead;
  claimed_until = none;
  claimed_by = none;
  last_error = some error;
  completed_at = some now;
  updated_at = now;
}

-- failRetryNoHistorySQL, failDeadNoHistorySQL
unfoldable pub fail_retry_no_history_sql : ℕ → ℕ → ℕ → String → ℕ → Db → Db
fail_retry_no_history_sql now i attempt error next db = record db {
  messages = update_where (holds i attempt) (retry_row now error next) db.messages;
}

unfoldable pub fail_dead_no_history_sql : ℕ → ℕ → ℕ → String → Db → Db
fail_dead_no_history_sql now i attempt error db = record db {
  messages = update_where (holds i attempt) (dead_row now error) db.messages;
}

-- The history of failRetrySQL and failDeadSQL: the first row is written in any case, the second
-- for each row that the UPDATE returns.
unfoldable pub fail_history :
    ℕ → ℕ → ℕ → String → String → Status → List Row → List HistoryRow → List HistoryRow
fail_history now i attempt error worker to updated hs = (hs ++ failed ∷ []) ++ map moved updated
  where
    n : ℕ
    n = max_seq i hs + 1

    failed : HistoryRow
    failed =
        entry now i n (some Status.handling) Status.failed attempt (nullif error) (nullif worker)

    moved : Row → HistoryRow
    moved u = entry now i (n + 1) (some Status.failed) to u.attempt (nullif error) (nullif worker)

unfoldable pub fail_retry_sql : ℕ → ℕ → ℕ → String → ℕ → String → Db → Db
unfolding fail_retry_no_history_sql
fail_retry_sql now i attempt error next worker db =
    record (fail_retry_no_history_sql now i attempt error next db) {
      history =
          fail_history now i attempt error worker Status.retrying
            (map (retry_row now error next) (select (holds i attempt) db.messages)) db.history;
    }

unfoldable pub fail_dead_sql : ℕ → ℕ → ℕ → String → String → Db → Db
unfolding fail_dead_no_history_sql
fail_dead_sql now i attempt error worker db =
    record (fail_dead_no_history_sql now i attempt error db) {
      history =
          fail_history now i attempt error worker Status.dead
            (map (dead_row now error) (select (holds i attempt) db.messages)) db.history;
    }

-- GREATEST(0, attempt - 1) is truncated subtraction.
unfoldable pub release_row : ℕ → String → Row → Row
release_row now reason r = record r {
  status = Status.retrying;
  claimed_until = none;
  claimed_by = none;
  attempt = r.attempt - 1;
  process_at = now;
  last_error = some reason;
  updated_at = now;
}

unfoldable pub release_no_history_sql : ℕ → ℕ → ℕ → String → Db → Db
release_no_history_sql now i attempt reason db = record db {
  messages = update_where (holds i attempt) (release_row now reason) db.messages;
}

unfoldable pub release_sql : ℕ → ℕ → ℕ → String → String → Db → Db
unfolding release_no_history_sql
release_sql now i attempt reason worker db =
    record (release_no_history_sql now i attempt reason db) {
      history =
          db.history
          ++ map new (map (release_row now reason) (select (holds i attempt) db.messages));
    }
  where
    new : Row → HistoryRow
    new u =
        entry now u.id (max_seq i db.history + 1) (some Status.handling) Status.retrying u.attempt
          (nullif reason) (nullif worker)

unfoldable pub leased_to : ℕ → String → Row → Bool
leased_to i worker r = r.id == i && (is_handling r.status && opt_is worker r.claimed_by)

unfoldable pub extend_row : ℕ → ℕ → Row → Row
extend_row now until r = record r { claimed_until = some until; updated_at = now }

-- extendSQL, with the number of rows affected
unfoldable pub extend_sql : ℕ → ℕ → String → ℕ → Db → ℕ × Db
extend_sql now i worker until db = (
  length (select (leased_to i worker) db.messages),
  record db { messages = update_where (leased_to i worker) (extend_row now until) db.messages },
)
