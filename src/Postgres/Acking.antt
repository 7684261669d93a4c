-- ===== src/Postgres/Acking.antt =====
-- What Succeed, Fail and ReleaseShutdown do to the messages (storage/postgres/postgres.go).
pub mod Fencing
pub mod Recovery
pub mod Outcome
use tickr.Prelude.{
  ℕ, String, List, [], ◌∷◌, Bool, true, false, Option, none, some, ◌≡◌, refl, ap, sym, ◌∙◌, inl,
  inr, Bool-cases, if◌then◌else◌, map_option,
}
use tickr.Message.{FailParams}
use tickr.Postgres.Table.{Row, Db, find_row, update_where}
use tickr.Postgres.Statements.{
  holds, succeed_row, succeed_sql, succeed_no_history_sql, retry_row, dead_row, fail_retry_sql,
  fail_retry_no_history_sql, fail_dead_sql, fail_dead_no_history_sql, release_row, release_sql,
  release_no_history_sql,
}
use tickr.Postgres.Session.{Driver, Session, Config, Result, ok, context, round_trip, relabel}
use tickr.Postgres.Session.Outcomes.{round_trip-made, with_id-format, OnceOrNot, round_trip-once}
use tickr.Postgres.Ack.{exec, succeed_statement, fail_statement, release_statement}
use tickr.Postgres.Ack
use tickr.Postgres.Calls.{Call, succeed, fail, release_shutdown, perform}
use tickr.Postgres.Rows.{KeepsId, find_row-update}

-- An acknowledgement of attempt `attempt` of message `i`.
pub data Verdict : Type 0 where
  done : String → Verdict
  retried : String → String → ℕ → Verdict
  buried : String → String → Verdict
  released : String → String → Verdict

-- The call that carries a verdict. The texts are the worker, then the error or reason.
abbrev pub call_of : Driver → ℕ → ℕ → Verdict → Call
call_of d i attempt (done worker) = succeed (d.format i) attempt worker
call_of d i attempt (retried worker error next) = fail (record {
  message_id = d.format i;
  attempt = attempt;
  worker_id = worker;
  err = error;
  next_retry_at = next;
  fatal = false;
})
call_of d i attempt (buried worker error) = fail (record {
  message_id = d.format i;
  attempt = attempt;
  worker_id = worker;
  err = error;
  next_retry_at = 0;
  fatal = true;
})
call_of d i attempt (released worker reason) = release_shutdown (d.format i) attempt worker reason

-- What a verdict makes of the row that it is about.
abbrev pub verdict_row : ℕ → Verdict → Row → Row
verdict_row now (done worker) = succeed_row now
verdict_row now (retried worker error next) = retry_row now error next
verdict_row now (buried worker error) = dead_row now error
verdict_row now (released worker reason) = release_row now reason

-- The statement that carries it out.
abbrev pub verdict_statement : Config → Driver → ℕ → ℕ → Verdict → ℕ → Db → Db
verdict_statement c d i attempt (done worker) = succeed_statement c d i attempt worker
verdict_statement c d i attempt (retried worker error next) = fail_statement c d i (record {
  message_id = d.format i;
  attempt = attempt;
  worker_id = worker;
  err = error;
  next_retry_at = next;
  fatal = false;
})
verdict_statement c d i attempt (buried worker error) = fail_statement c d i (record {
  message_id = d.format i;
  attempt = attempt;
  worker_id = worker;
  err = error;
  next_retry_at = 0;
  fatal = true;
})
verdict_statement c d i attempt (released worker reason) =
    release_statement c d i attempt worker reason

pub verdict_row-id : (now : ℕ) (v : Verdict) → KeepsId (verdict_row now v)
unfolding succeed_row retry_row dead_row release_row
verdict_row-id now (done worker) r = refl
verdict_row-id now (retried worker error next) r = refl
verdict_row-id now (buried worker error) r = refl
verdict_row-id now (released worker reason) r = refl

module _ (c : Config) (d : Driver) (i attempt : ℕ) where
  -- The messages after a statement, under either history policy.
  pub verdict_statement-messages :
      (v : Verdict) (now : ℕ) (db : Db)
      → (verdict_statement c d i attempt v now db).messages
        ≡ update_where (holds i attempt) (verdict_row now v) db.messages
  unfolding succeed_statement fail_statement release_statement succeed_sql succeed_no_history_sql
      fail_retry_sql fail_retry_no_history_sql fail_dead_sql fail_dead_no_history_sql release_sql
      release_no_history_sql
  verdict_statement-messages (done worker) now db = elim (Bool-cases c.history_off) [
    | inl e ↦ rw e
    | inr e ↦ rw e
  ]
  verdict_statement-messages (retried worker error next) now db = elim (Bool-cases c.history_off) [
    | inl e ↦ rw e
    | inr e ↦ rw e
  ]
  verdict_statement-messages (buried worker error) now db = elim (Bool-cases c.history_off) [
    | inl e ↦ rw e
    | inr e ↦ rw e
  ]
  verdict_statement-messages (released worker reason) now db = elim (Bool-cases c.history_off) [
    | inl e ↦ rw e
    | inr e ↦ rw e
  ]

  -- What a verdict's call does to the session: one round trip.
  perform-trip :
      (v : Verdict) (s : Session)
      → perform c d (call_of d i attempt v) s ≡ (exec (verdict_statement c d i attempt v) s).1
  unfolding perform Ack.succeed Ack.fail Ack.release_shutdown context
  perform-trip (done worker) s =
      ap (λ x. x.1) (with_id-format d "tickr/postgres: succeed: bad id" i _ s)
  perform-trip (retried worker error next) s =
      ap (λ x. x.1) (with_id-format d "tickr/postgres: fail: bad id" i _ s)
  perform-trip (buried worker error) s =
      ap (λ x. x.1) (with_id-format d "tickr/postgres: fail: bad id" i _ s)
  perform-trip (released worker reason) s =
      ap (λ x. x.1) (with_id-format d "tickr/postgres: release: bad id" i _ s)

  pub perform-exec :
      (v : Verdict) (s : Session)
      → (perform c d (call_of d i attempt v) s).db
        ≡ (exec (verdict_statement c d i attempt v) s).1.db
  perform-exec v s = ap (λ x. x.db) (perform-trip v s)

  -- Neither the clock nor the wires are touched when no failure is foretold.
  pub perform-quiet :
      (v : Verdict) (s : Session)
      → s.wires ≡ []
      → ((perform c d (call_of d i attempt v) s).now ≡ s.now)
        × ((perform c d (call_of d i attempt v) s).wires ≡ [])
  perform-quiet v s e = rw (perform-trip v s, round_trip-made _ s e) (refl, refl)

  -- Whatever the wires do, the statement runs once or not at all.
  pub perform_once :
      (v : Verdict) (s : Session)
      → OnceOrNot s.db
          (verdict_statement c d i attempt v s.now s.db)
          (perform c d (call_of d i attempt v) s).db
  perform_once v s = rw (perform-exec v s) (round_trip-once _ s)

  -- With no failure foretold, the row of message `i` becomes what the verdict says if it is
  -- HANDLING under this attempt, and every other row stays as it is: for Succeed, Fail (both ways)
  -- and ReleaseShutdown, with and without history.
  pub perform-verdict_row :
      (v : Verdict) (s : Session) (j : ℕ)
      → s.wires ≡ []
      → find_row j (perform c d (call_of d i attempt v) s).db.messages
        ≡ map_option
            (λ r. if holds i attempt r then verdict_row s.now v r else r)
            (find_row j s.db.messages)
  perform-verdict_row v s j e =
      ap (λ db. find_row j db.messages)
        (perform-exec v s ∙ ap (λ x. x.1.db) (round_trip-made _ s e))
      ∙ (ap (find_row j) (verdict_statement-messages v s.now s.db)
          ∙ find_row-update j (holds i attempt) (verdict_row s.now v) s.db.messages
              (verdict_row-id s.now v))
