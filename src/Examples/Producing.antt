-- ===== src/Examples/Producing.antt =====
-- The theorems on producers and on the purge, at a table of two messages.
use tickr.Prelude.{negsuc, List, Option, map, [], ◌∷◌, true, none, some, ◌≡◌, refl, pos, arith}
use tickr.Errors.{duplicate}
use tickr.Message.{Message}
use tickr.Storage.{Metric}
use tickr.Postgres.Table.{Row, Db, find_row}
use tickr.Postgres.Statements.{find_by_idem_sql, finished_before}
use tickr.Postgres.Session.{Session, new_id}
use tickr.Postgres.Enqueue.{enqueue}
use tickr.Postgres.Adapter.{adapter}
use tickr.Postgres.Dedup.{IsDuplicateReply, row_made, enqueue-twice}
use tickr.Message.{Status}
use tickr.Engine.{World}
use tickr.Worker.{Retention, purge_rounds}
use tickr.Worker.Purge.{purge_rounds_exact}
use tickr.Client
use tickr.Client.{Client, Counted}
use tickr.Client.Laws.{enqueue-existing}
use tickr.Client.Announcing.{types_of, id_or_none, firsts, tell_all, enqueue_batch-firsts}
use tickr.Message.{InboundMessage}
use tickr.Errors.{Error}
use tickr.Examples.{unary, plain, waiting, two_rows, session_at, email}

abbrev before : Session
before = session_at 60 [] two_rows

-- The session of another producer, later.
abbrev after : Session
after = record (session_at 70 [] (enqueue plain unary (email "n") before).1.db) { ids = 12 ∷ [] }

enqueue-twice_example :
    IsDuplicateReply plain unary
      (record (email "n") { payload = [] })
      (row_made plain unary (email "n") before)
      after
      (enqueue plain unary (record (email "n") { payload = [] }) after)
unfolding find_by_idem_sql find_row new_id
enqueue-twice_example =
    enqueue-twice plain unary (email "n") (record (email "n") { payload = [] }) before after refl
      refl refl refl refl refl refl refl refl refl

-- A dead letter.
abbrev buried : Row
buried = record waiting { id = 3; status = Status.dead; attempt = 3; completed_at = some 45 }

abbrev three_rows : Db
three_rows = record two_rows { messages = buried ∷ two_rows.messages }

abbrev client : Client Session
client = record {
  storage = adapter plain unary (λ key s. ((true, none), s)) (λ key s. s);
  default_max_attempts = pos 5;
  inject = λ h. h;
  number = λ i. "0";
}

abbrev mail : Message
mail = record {
  type_name = "email";
  payload = [];
  headers = [];
  idempotency_key = "k";
  scheduled_at = 0;
  max_attempts = pos 0;
}

abbrev start : Counted Session
start = record { store = before; metrics = [] }

enqueue-existing_example :
    ((Client.enqueue client mail start).0
      ≡ (unary.format 7, some (duplicate (unary.format 7) "email" "k")))
    × ((Client.enqueue client mail start).1.metrics ≡ Metric.message_enqueued "email" ∷ [])
    × ((Client.enqueue client mail start).1.store.db ≡ two_rows)
unfolding find_by_idem_sql
enqueue-existing_example =
    enqueue-existing plain unary (λ key s. ((true, none), s)) (λ key s. s) client mail start waiting
      refl refl refl refl refl

abbrev janitor : World Session
janitor = record { store = session_at 100 [] three_rows; alerts = []; metrics = []; acks = [] }

-- Rounds of one message, with the dead letter to purge.
purge_rounds_exact_example :
    ((purge_rounds client.storage (client.storage.purge_terminal 50 1) 1 1 janitor).0 ≡ true)
    × (find_row 3
          (purge_rounds client.storage
            (client.storage.purge_terminal 50 1)
            1
            1
            janitor).1.store.db.messages
        ≡ none)
unfolding find_row finished_before
purge_rounds_exact_example =
    purge_rounds_exact plain unary (λ key s. ((true, none), s)) (λ key s. s) 50 1 1 3 janitor
      (omega arith) (refl, (refl, (refl, tt))) refl (omega arith)

abbrev keep_forever : Retention
keep_forever = record { success = pos 0; dead = negsuc 0; history = pos 0; purge_batch = pos 0 }

-- The first of the two is there already.
abbrev another : Message
another = record mail { idempotency_key = "" }

abbrev stored : (List (Option InboundMessage) × Error) × Session
stored =
    client.storage.enqueue_batch (map (Client.params_of client 60) (mail ∷ another ∷ [])) before

enqueue_batch-firsts_example :
    ((Client.enqueue_batch client (mail ∷ another ∷ []) start).0
      ≡ (map id_or_none stored.0.0, stored.0.1))
    × ((Client.enqueue_batch client (mail ∷ another ∷ []) start).1.metrics
        ≡ map Metric.message_enqueued (types_of stored.0.0))
    × ((Client.enqueue_batch client (mail ∷ another ∷ []) start).1.store
        ≡ tell_all client (firsts (types_of stored.0.0)) stored.1)
enqueue_batch-firsts_example =
    enqueue_batch-firsts client mail (another ∷ []) start (refl, (refl, tt))
