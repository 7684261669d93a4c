-- ===== src/Examples/Store.antt =====
-- The theorems on the Postgres store, at two messages.
use tickr.Prelude.{ap, ℕ, List, [], ◌∷◌, false, Option, none, some, ◌≡◌, refl, pos, arith}
use tickr.Postgres.Table.{Row, Db, find_row, empty_db, update_where, order_by, insert_by}
use tickr.Postgres.Statements.{
  claim_sql, reclaim_row, reclaim_sql, mark_expired, eligible, lease_expired, due_before,
  claim_picks,
}
use tickr.Postgres.Session.{Wire}
use tickr.Postgres.Calls.{Call, Kind, perform, perform_all}
use tickr.Postgres.Enqueue.{enqueue}
use tickr.Postgres.Rows.{UniqueIds}
use tickr.Postgres.Invariant.{Inv}
use tickr.Postgres.Invariant.Runs.{perform_all-Inv}
use tickr.Postgres.Lifecycle.{Moved, Change}
use tickr.Postgres.Lifecycle.Runs.{perform-Change}
use tickr.Postgres.Acking.{Verdict, call_of}
use tickr.Postgres.Acking.Outcome.{perform-after_verdict}
use tickr.Message.{Status}
use tickr.Postgres.Acking.Fencing.{IsStale, perform_stale}
use tickr.Postgres.Acking.Recovery.{recovered_taken, recovered_fenced}
use tickr.Postgres.Claiming.{claim_picks_oldest_first}
use tickr.Examples.{unary, plain, waiting, running, two_rows, session_at, email}

abbrev calls : List Call
calls =
    Call.enqueue (email "a")
    ∷ Call.claim (record { worker_id = "w"; batch = pos 2; lease = pos 0; event_types = [] })
    ∷ Call.sleep 5
    ∷ []

empty_db-Inv : Inv plain empty_db
empty_db-Inv = record { ids = tt; rows = tt; keys = λ _. tt; entries = tt }

perform_all-Inv_example :
    Inv plain
      (perform_all plain unary calls (session_at 50 (Wire.made ∷ Wire.cut ∷ []) empty_db)).db
perform_all-Inv_example =
    perform_all-Inv plain unary calls (session_at 50 (Wire.made ∷ Wire.cut ∷ []) empty_db)
      empty_db-Inv

-- The Succeed at the end of the calls.
perform-Change_example :
    Change Moved Kind.succeeding
      (find_row 11 (perform_all plain unary calls (session_at 50 [] empty_db)).db.messages)
      (find_row 11
        (perform plain unary
          (Call.succeed (unary.format 11) 1 "w")
          (perform_all plain unary calls (session_at 50 [] empty_db))).db.messages)
unfolding find_row
perform-Change_example =
    perform-Change plain unary calls (Call.succeed (unary.format 11) 1 "w")
      (session_at 50 [] empty_db) 11 tt

two_rows-UniqueIds : UniqueIds two_rows.messages
unfolding find_row
two_rows-UniqueIds = (refl, (refl, tt))

-- Succeed of the attempt under way.
perform-after_verdict_example :
    find_row 9
      (perform plain unary
        (call_of unary 9 2 (Verdict.done "w"))
        (session_at 60 [] two_rows)).db.messages
    ≡ some (record running {
      status = Status.success;
      claimed_by = none;
      claimed_until = none;
      last_error = none;
      completed_at = some 60;
      updated_at = 60;
    })
unfolding find_row
perform-after_verdict_example =
    perform-after_verdict plain unary 9 2 (Verdict.done "w") (session_at 60 [] two_rows) 9 refl

abbrev attempt_in : Option Row → ℕ
attempt_in none = 0
attempt_in (some r) = r.attempt

first_attempt-IsStale : IsStale 9 1 two_rows.messages
unfolding find_row
first_attempt-IsStale r e h q = omega (arith, ap attempt_in e)

-- Succeed of the attempt before.
perform_stale_example :
    (perform plain unary
      (call_of unary 9 1 (Verdict.done "v"))
      (session_at 60 [] two_rows)).db.messages
    ≡ two_rows.messages
perform_stale_example =
    perform_stale plain unary 9 1 (Verdict.done "v") (session_at 60 [] two_rows) two_rows-UniqueIds
      first_attempt-IsStale

abbrev later : Row
later = record waiting { id = 8; process_at = 45; idempotency_key = none }

claim_picks_oldest_first_example : due_before later waiting ≡ false
unfolding find_row eligible claim_picks due_before order_by insert_by
claim_picks_oldest_first_example =
    claim_picks_oldest_first 50 none 1 none (waiting ∷ later ∷ []) (refl, (refl, tt)) waiting later
      refl refl refl refl refl

-- The tables after a reclaim at 100 and a claim at 130.
abbrev taken_over : Db
taken_over = (claim_sql 130 none 5 "v" (pos 30) none (reclaim_sql 100 5 two_rows).1).1

recovered_taken_example :
    find_row 9 taken_over.messages
    ≡ some (record running {
      attempt = 3;
      claimed_by = some "v";
      claimed_until = some 160;
      process_at = 100;
      last_error = some " [lease expired]";
      updated_at = 130;
    })
unfolding find_row lease_expired reclaim_sql update_where eligible reclaim_row mark_expired
recovered_taken_example =
    recovered_taken 100 130 5 none 5 "v" (pos 30) two_rows 9 running (omega arith)
      two_rows-UniqueIds refl refl refl (omega arith) (omega arith)

recovered_fenced_example :
    (perform plain unary
      (call_of unary 9 2 (Verdict.done "w"))
      (session_at 140 [] taken_over)).db.messages
    ≡ taken_over.messages
unfolding find_row lease_expired reclaim_sql update_where eligible reclaim_row
recovered_fenced_example =
    recovered_fenced 100 130 5 none 5 "v" (pos 30) two_rows 9 running (omega arith)
      two_rows-UniqueIds refl refl refl (omega arith) (omega arith) plain unary (Verdict.done "w")
      (session_at 140 [] taken_over) refl
