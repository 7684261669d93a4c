-- ===== src/Mysql/Acking.antt =====
-- What Succeed, Fail and ReleaseShutdown of the MySQL store do to the messages and the history
-- (storage/mysql/mysql.go).
use tickr.Prelude.{ℕ, String, true, false}
use tickr.Message.{Status}
use tickr.Postgres.Table.{Row, Db}
use tickr.Postgres.Session.{Session}
use tickr.Postgres.Calls.{Call, succeed, fail, release_shutdown}
use tickr.Postgres.Acking.{Verdict, done, retried, buried, released}
use tickr.Mysql.Session.{Ids}
use tickr.Mysql.Statements.{
  held_by, append_history_sql, succeed_row, dead_row, retry_row, release_row, update_sql,
}
use tickr.Mysql.Ack

-- The call that carries a verdict.
abbrev pub call_of : Ids → ℕ → ℕ → Verdict → Call
call_of d i attempt (done worker) = succeed (d.text i) attempt worker
call_of d i attempt (retried worker error next) = fail (record {
  message_id = d.text i;
  attempt = attempt;
  worker_id = worker;
  err = error;
  next_retry_at = next;
  fatal = false;
})
call_of d i attempt (buried worker error) = fail (record {
  message_id = d.text i;
  attempt = attempt;
  worker_id = worker;
  err = error;
  next_retry_at = 0;
  fatal = true;
})
call_of d i attempt (released worker reason) = release_shutdown (d.text i) attempt worker reason

abbrev pub worker_of : Verdict → String
worker_of (done worker) = worker
worker_of (retried worker error next) = worker
worker_of (buried worker error) = worker
worker_of (released worker reason) = worker

-- What it makes of the row that it is about.
abbrev pub verdict_row : ℕ → Verdict → Row → Row
verdict_row now (done worker) = succeed_row now
verdict_row now (retried worker error next) = retry_row now error next
verdict_row now (buried worker error) = dead_row now error
verdict_row now (released worker reason) = release_row now

-- The line of the history.
abbrev line_status : Verdict → Status
line_status (done worker) = Status.success
line_status (retried worker error next) = Status.retrying
line_status (buried worker error) = Status.dead
line_status (released worker reason) = Status.retrying

abbrev line_text : Verdict → String
line_text (done worker) = ""
line_text (retried worker error next) = error
line_text (buried worker error) = error
line_text (released worker reason) = reason

module _ (d : Ids) (i attempt : ℕ) where
  -- The tables after the call.
  abbrev judged_db : ℕ → Verdict → Db → Db
  judged_db now v db =
      append_history_sql now i Status.handling (line_status v) attempt (line_text v) (worker_of v)
        (update_sql (held_by d i (worker_of v)) (verdict_row now v) db)
