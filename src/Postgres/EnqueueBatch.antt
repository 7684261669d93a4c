-- ===== src/Postgres/EnqueueBatch.antt =====
-- storage/postgres/postgres.go: EnqueueBatch, with batchInsertSQL and batchInsertPartitionedSQL.
use tickr.Prelude.{String, List, [], ◌∷◌, map, Bool, Option, none, some, if◌then◌else◌, str_eq}
use tickr.Errors.{Err, Error, text, wrapped, duplicate}
use tickr.Message.{InboundMessage, EnqueueParams}
use tickr.Postgres.Table.{Row, Db, find_row}
use tickr.Postgres.Statements.{Insert, inserted, skipped, id_taken, enqueue_sql}
use tickr.Postgres.Session.{
  Driver, Session, Config, Result, ok, err, round_trip, pick_shard, new_id, scan_message,
}
use tickr.Postgres.Enqueue.{new_row, notify_enqueue, find_by_idempotency, no_rows}

-- The rows of the statement one by one; `none` is a primary key that is taken.
unfoldable pub after_row : Insert → Option (List Row) × Db → Option (List Row) × Db
after_row (inserted r) (some rs, db) = (some (r ∷ rs), db)
after_row skipped (some rs, db) = (some rs, db)
after_row id_taken (some rs, db) = (none, db)
after_row _ (none, db) = (none, db)

unfoldable pub insert_each : Bool → List Row → Db → Option (List Row) × Db
insert_each partitioned [] db = (some [], db)
insert_each partitioned (r ∷ rs) db =
    let (i, db') = enqueue_sql partitioned r db in after_row i (insert_each partitioned rs db')

-- A statement that fails has no effect.
unfoldable pub or_nothing : Db → Option (List Row) × Db → Option (List Row) × Db
or_nothing db (none, _) = (none, db)
or_nothing db (some rs, db') = (some rs, db')

unfoldable pub batch_insert_sql : Bool → List Row → Db → Option (List Row) × Db
unfolding insert_each or_nothing
batch_insert_sql partitioned rows db = or_nothing db (insert_each partitioned rows db)

-- The arrays of the statement: one row for each message, with its own id and shard.
unfoldable pub prepare : List EnqueueParams → Session → List (EnqueueParams × Row) × Session
prepare [] s = ([], s)
prepare (p ∷ ps) s =
    let (id, s') = new_id s in
    let (shard, s'') = pick_shard s' in
    let (rows, t) = prepare ps s'' in ((p, new_row s.now id shard p) ∷ rows, t)

abbrev pub rows_of : List (EnqueueParams × Row) → List Row
rows_of = map (λ e. e.1)

-- The output slice, the error that ends the loop and the first duplicate.
pub record Collected : Type 0 where
  pub out : List (Option InboundMessage)
  pub fatal : Error
  pub dup : Error

-- An early return leaves the rest of the slice nil.
unfoldable pub stop : Err → List (EnqueueParams × Row) → Collected
stop e rest = record { out = none ∷ map (λ _. none) rest; fatal = some e; dup = none }

unfoldable pub found : InboundMessage → Collected → Collected
found m c = record c { out = some m ∷ c.out }

unfoldable pub found_existing : InboundMessage → Err → Collected → Collected
found_existing m e c = record c { out = some m ∷ c.out; dup = some e }

module _ (c : Config) (d : Driver) where
  unfoldable pub dup_error : EnqueueParams → Row → Err
  dup_error p r = duplicate (d.format r.id) p.event_type p.idempotency_key

  -- A skipped message, after the lookup of the existing row; `loop` is the rest of the loop.
  unfoldable pub after_skip :
      EnqueueParams
      → List (EnqueueParams × Row)
      → (Session → Collected × Session)
      → Result (Option Row)
      → Session
      → Collected × Session
  unfolding stop found_existing dup_error
  after_skip p rest loop (err e) s = (stop e rest, s)
  after_skip p rest loop (ok none) s = (stop no_rows rest, s)
  after_skip p rest loop (ok (some x)) s =
      let (k, s') = loop s in (found_existing (scan_message d x) (dup_error p x) k, s')

  -- One turn of the loop, by the row that was inserted for the message.
  unfoldable pub collect_one :
      EnqueueParams
      → List (EnqueueParams × Row)
      → (Session → Collected × Session)
      → Option Row
      → Session
      → Collected × Session
  unfolding stop found after_skip
  collect_one p rest loop (some m) s = let (k, s') = loop s in (found (scan_message d m) k, s')
  collect_one p rest loop none s =
      if str_eq p.idempotency_key ""
      then (stop (text "tickr/postgres: enqueue batch item: no rows returned") rest, s)
      else (let (res, s') = find_by_idempotency p.event_type p.idempotency_key s in
          after_skip p rest loop res s')

  -- The loop over the input, in its order.
  unfoldable pub collect : List (EnqueueParams × Row) → List Row → Session → Collected × Session
  unfolding collect_one
  collect [] ins s = (record { out = []; fatal = none; dup = none }, s)
  collect ((p, r) ∷ rest) ins s = collect_one p rest (collect rest ins) (find_row r.id ins) s

  abbrev pub BatchReply : Type 0
  BatchReply = (List (Option InboundMessage) × Error) × Session

  abbrev pub or_error : Error → Error → Error
  or_error none e = e
  or_error (some x) e = some x

  -- The end: one notification if a row was inserted.
  unfoldable pub finish : String → List Row → Collected → Error → Session → BatchReply
  finish event_type ins k (some e) s = ((k.out, some e), s)
  finish event_type [] k none s = ((k.out, k.dup), s)
  finish event_type (r ∷ rs) k none s =
      let (nerr, s') = notify_enqueue c event_type s in ((k.out, or_error nerr k.dup), s')

  unfoldable pub after_batch :
      String → List (EnqueueParams × Row) → Result (Option (List Row)) → Session → BatchReply
  unfolding collect finish
  after_batch event_type rows (err e) s =
      (([], some (wrapped "tickr/postgres: enqueue batch" e)), s)
  after_batch event_type rows (ok none) s =
      (([], some (wrapped "tickr/postgres: enqueue batch rows" (text "duplicate key"))), s)
  after_batch event_type rows (ok (some ins)) s =
      let (k, s') = collect rows ins s in finish event_type ins k k.fatal s'

  unfoldable pub enqueue_batch : List EnqueueParams → Session → BatchReply
  unfolding after_batch prepare batch_insert_sql
  enqueue_batch [] s = (([], none), s)
  enqueue_batch (p ∷ ps) s =
      let (rows, s') = prepare (p ∷ ps) s in
      let (r, s'') = round_trip (λ now. batch_insert_sql c.partitioned (rows_of rows)) s' in
      after_batch p.event_type rows r s''
