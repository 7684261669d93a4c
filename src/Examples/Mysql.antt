-- ===== src/Examples/Mysql.antt =====
-- The theorems on the MySQL store, at two messages.
use tickr.Prelude.{
  if◌then◌else◌, String, select, none, str_eq, List, [], ◌∷◌, some, ◌≡◌, ◌⊎◌, refl, pos, map,
}
use tickr.Message.{ClaimParams, BatchSucceedParam}
use tickr.Postgres.Table.{id_in, ids_of, find_row, empty_db}
use tickr.Postgres.Session.{Wire, Session}
use tickr.Postgres.Calls.{Call, Kind}
use tickr.Postgres.Lifecycle.{Change}
use tickr.Mysql.Session.{Ids}
use tickr.Mysql.Calls.{perform, perform_all}
use tickr.Mysql.Lifecycle.{Moved}
use tickr.Mysql.Lifecycle.Runs.{perform-Moved}
use tickr.Mysql.Claim.{claim}
use tickr.Mysql.Claiming.{used, claim-claim_sql}
use tickr.Mysql.Session.{scan_message}
use tickr.Postgres.Statements.{claim_sql}
use tickr.Mysql.Ack.{batch_succeed}
use tickr.Mysql.Atomicity.{IsOk, acknowledged_row, batch_succeed-all_or_none}
use tickr.Examples.{tally, count, count-tally, two_rows, session_at, email}

-- A collation that reads one name in both cases.
abbrev folded : String → String
folded t = if str_eq t "EMAIL" then "email" else t

abbrev texts : Ids
texts = record {
  code = count;
  text = tally;
  code-text = count-tally;
  same_text = λ a b. str_eq (folded a) (folded b);
}

abbrev request : ClaimParams
request = record { worker_id = "v"; batch = pos 2; lease = pos 9; event_types = "email" ∷ [] }

abbrev calls : List Call
calls = Call.enqueue (email "a") ∷ Call.claim request ∷ Call.sleep 5 ∷ []

perform-Moved_example :
    Change Moved Kind.releasing
      (find_row 11 (perform_all texts calls (session_at 50 [] empty_db)).db.messages)
      (find_row 11
        (perform texts
          (Call.release_shutdown (tally 11) 1 "v" "bye")
          (perform_all texts calls (session_at 50 [] empty_db))).db.messages)
unfolding find_row
perform-Moved_example =
    perform-Moved texts calls (Call.release_shutdown (tally 11) 1 "v" "bye")
      (session_at 50 [] empty_db) 11 tt

abbrev acknowledgements : List BatchSucceedParam
acknowledgements = record { message_id = tally 9; attempt = 2; worker_id = "w" } ∷ []

-- The UPDATE is made, its line and the Commit fail.
abbrev failing : Session
failing = session_at 60 (Wire.made ∷ Wire.made ∷ Wire.refused ∷ Wire.refused ∷ []) two_rows

batch_succeed-all_or_none_example :
    (((batch_succeed texts acknowledgements failing).1.db ≡ two_rows)
      × (IsOk (batch_succeed texts acknowledgements failing).0 → ⊥))
    ⊎ ((batch_succeed texts acknowledgements failing).1.db.messages
        ≡ map (acknowledged_row texts 60 acknowledgements) two_rows.messages)
batch_succeed-all_or_none_example = batch_succeed-all_or_none texts acknowledgements failing

-- The drawn shard is another one than that of the message that waits.
abbrev before_claim : Session
before_claim = session_at 60 [] two_rows

claim-claim_sql_example :
    ((claim texts request before_claim).1.db.messages
      ≡ (claim_sql 60
          (some request.event_types)
          2
          "v"
          (pos 9)
          (used texts request before_claim)
          two_rows).1.messages)
    × ((claim texts request before_claim).0 ≡ (
      map (scan_message texts) (
          select
            (λ r.
              id_in
                (ids_of
                  (claim_sql 60
                    (some request.event_types)
                    2
                    "v"
                    (pos 9)
                    (used texts request before_claim)
                    two_rows).0)
                r.id)
            (claim_sql 60
              (some request.event_types)
              2
              "v"
              (pos 9)
              (used texts request before_claim)
              two_rows).1.messages),
      none,
    ))
claim-claim_sql_example =
    claim-claim_sql texts request before_claim "email" [] refl refl (refl, (refl, tt))
