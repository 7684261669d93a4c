-- ===== src/Mysql/Enqueue.antt =====
-- storage/mysql/mysql.go: Enqueue and EnqueueBatch. The transaction that a caller passes only selects
-- the connection.
use tickr.Prelude.{ℕ, String, List, [], ◌∷◌, Option, none, some, if◌then◌else◌, str_eq}
use tickr.Errors.{Err, Error, text, wrapped, duplicate, is_duplicate}
use tickr.Message.{InboundMessage, EnqueueParams}
use tickr.Postgres.Table.{Row, find_row}
use tickr.Postgres.Statements.{Insert, inserted, skipped, id_taken}
use tickr.Mysql.Statements.{insert_sql, find_by_key_sql}
use tickr.Postgres.Enqueue.{new_row}
use tickr.Postgres.Session.{
  Session, Result, ok, err, Action, round_trip, context, pick_shard, new_id,
}
use tickr.Mysql.Session.{Ids, scan_message}

abbrev pub Reply : Type 0
Reply = (Option InboundMessage × Error) × Session

-- The server's error 1062, for either unique key.
abbrev duplicate_entry : Err
duplicate_entry = text "Error 1062: Duplicate entry"

abbrev no_rows : Err
no_rows = text "sql: no rows in result set"

-- findByIdempotency; `ok none` is sql.ErrNoRows.
unfoldable pub find_by_idempotency : Ids → String → String → Action (Option Row)
find_by_idempotency d event_type key =
    context "tickr/mysql: fetch by idempotency key"
      (round_trip (λ now db. (find_by_key_sql d event_type key db.messages, db)))

-- findByID
unfoldable pub find_by_id : ℕ → Action (Option Row)
find_by_id i = round_trip (λ now db. (find_row i db.messages, db))

module _ (d : Ids) where
  abbrev pub existing : EnqueueParams → Result (Option Row) × Session → Reply
  existing p (err e, s) = ((none, some e), s)
  existing p (ok none, s) =
      ((none, some (wrapped "tickr/mysql: fetch by idempotency key" no_rows)), s)
  existing p (ok (some r), s) = (
    (
      some (scan_message d r),
      some (duplicate (scan_message d r).id p.event_type p.idempotency_key),
    ),
    s,
  )

  abbrev pub fetched : Result (Option Row) × Session → Reply
  fetched (err e, s) = ((none, some e), s)
  fetched (ok none, s) = ((none, some no_rows), s)
  fetched (ok (some r), s) = ((some (scan_message d r), none), s)

  -- A duplicate entry, with a key to look up or without.
  abbrev pub on_duplicate : EnqueueParams → Session → Reply
  on_duplicate p s =
      if str_eq p.idempotency_key ""
      then ((none, some (wrapped "tickr/mysql: enqueue" duplicate_entry)), s)
      else existing p (find_by_idempotency d p.event_type p.idempotency_key s)

  abbrev pub after_insert : EnqueueParams → ℕ → Result Insert × Session → Reply
  after_insert p id (err e, s) = ((none, some (wrapped "tickr/mysql: enqueue" e)), s)
  after_insert p id (ok (inserted r), s) = fetched (find_by_id id s)
  after_insert p id (ok skipped, s) = on_duplicate p s
  after_insert p id (ok id_taken, s) = on_duplicate p s

  unfoldable pub enqueue : EnqueueParams → Session → Reply
  unfolding find_by_idempotency find_by_id scan_message
  enqueue p s =
      let (id, s1) = new_id s in
      let (shard, s2) = pick_shard s1 in
      after_insert p id (round_trip (λ now. insert_sql d (new_row now id shard p)) s2)

  abbrev pub or_error : Error → Error → Error
  or_error none e = e
  or_error (some f) e = some f

  -- The message of a reply; a duplicate counts as no error.
  abbrev pub kept_reply : Option InboundMessage × Error → Option InboundMessage × Error
  kept_reply (m, none) = (m, none)
  kept_reply (m, some e) = if is_duplicate e then (m, none) else (none, some e)

  -- One after the other; the error is the first.
  unfoldable pub enqueue_batch :
      List EnqueueParams → Session → (List (Option InboundMessage) × Error) × Session
  unfolding enqueue
  enqueue_batch [] s = (([], none), s)
  enqueue_batch (p ∷ ps) s =
      let (reply, s1) = enqueue p s in
      let ((ms, e), s2) = enqueue_batch ps s1 in
      (((kept_reply reply).0 ∷ ms, or_error (kept_reply reply).1 e), s2)
