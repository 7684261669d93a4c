-- ===== src/Mysql/Session.antt =====
-- What the methods of storage/mysql/mysql.go run on: database/sql's transactions over the session of
-- round trips.
use tickr.Prelude.{ℕ, String, Bool, none, pos, ◌≡◌}
use tickr.Errors.{Err}
use tickr.Message.{InboundMessage}
use tickr.Postgres.Table.{Row, Db}
use tickr.Postgres.Session.{
  Session, Result, ok, err, Action, Wire, made, refused, cut, broken, next_wire, rest_wires,
  round_trip, text_of,
}

-- The ids are CHAR(36) columns, compared as texts. Their texts stand here for numbers in the same
-- order: `code` is the number of a text, `text` the text of a number. `same_text` is the `=` of the
-- tables' collation on the other texts, which need not tell upper from lower case.
pub record Ids : Type 0 where
  pub code : String → ℕ
  pub text : ℕ → String
  pub code-text : (i : ℕ) → code (text i) ≡ i
  pub same_text : String → String → Bool

-- A statement that returns nothing.
abbrev pub exec : (ℕ → Db → Db) → Action (Unit {0})
exec st = round_trip (λ now db. (tt, st now db))

-- tx.Commit(); an answer that is lost leaves what was committed.
unfoldable pub commit :
    {A : Type 0} → (A → Err → Err) → Db → Wire → A → Session → Result A × Session
commit commit_err old made a s = (ok a, s)
commit commit_err old refused a s = (err (commit_err a broken), record s { db = old })
commit commit_err old cut a s = (err (commit_err a broken), s)

-- The deferred tx.Rollback(), or the commit.
unfoldable pub finish :
    {A : Type 0} → (A → Err → Err) → Db → Result A × Session → Result A × Session
unfolding commit
finish commit_err old (err e, s) = (err e, record s { db = old })
finish commit_err old (ok a, s) =
    commit commit_err old (next_wire s.wires) a (record s { wires = rest_wires s.wires })

abbrev pub begun :
    {A : Type 0} → (Err → Err) → (A → Err → Err) → Action A → Wire → Session → Result A × Session
begun begin_err commit_err body made s = finish commit_err s.db (body s)
begun begin_err commit_err body _ s = (err (begin_err broken), s)

-- BeginTx, the statements of the body on the tables as the transaction sees them, and Commit. The
-- two functions are what the method makes of an error of BeginTx and of Commit.
unfoldable pub transaction : {A : Type 0} → (Err → Err) → (A → Err → Err) → Action A → Action A
unfolding finish
transaction begin_err commit_err body s =
    begun begin_err commit_err body (next_wire s.wires) (record s { wires = rest_wires s.wires })

-- `_, _ = ex.ExecContext(...)`
unfoldable pub ignoring : Action (Unit {0}) → Action (Unit {0})
ignoring m s = let (r, s') = m s in (ok tt, s')

-- scanMessage, which leaves the status out.
unfoldable pub scan_message : Ids → Row → InboundMessage
unfolding text_of
scan_message d r = record {
  id = d.text r.id;
  type_name = r.event_type;
  payload = r.payload;
  headers = r.headers;
  idempotency_key = text_of r.idempotency_key;
  attempt = r.attempt;
  max_attempts = pos r.max_attempts;
  enqueued_at = r.created_at;
  scheduled_at = r.process_at;
  last_error = text_of r.last_error;
  status = none;
}
