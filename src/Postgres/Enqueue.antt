-- ===== src/Postgres/Enqueue.antt =====
-- storage/postgres/postgres.go: Enqueue, EnqueueBatch and Notify. The transaction that a caller
-- passes only selects the connection: its statements run on the tables as they stand in it.
use tickr.Prelude.{
  ℕ, String, [], ◌∷◌, ◌++◌, ◌&&◌, not, Option, none, some, ◌==◌, if◌then◌else◌, str_eq, or_default,
}
use tickr.Errors.{Err, Error, text, wrapped, duplicate}
use tickr.Message.{Status, InboundMessage, EnqueueParams}
use tickr.Postgres.Table.{Row, nullif}
use tickr.Postgres.Statements.{Insert, inserted, skipped, id_taken, enqueue_sql, find_by_idem_sql}
use tickr.Postgres.Session.{
  Driver, Session, Config, Result, ok, err, Action, round_trip, context, pick_shard, new_id,
  scan_message,
}

-- The row that the INSERT of `p` writes. The values `id` and `shard` are drawn for it, a time of
-- zero is replaced by the caller's clock.
unfoldable pub new_row : ℕ → ℕ → ℕ → EnqueueParams → Row
new_row now id shard p = record {
  id = id;
  event_type = p.event_type;
  payload = p.payload;
  headers = p.headers;
  idempotency_key = nullif p.idempotency_key;
  status = Status.created;
  attempt = 0;
  max_attempts = or_default p.max_attempts 10;
  process_at = if p.process_at == 0 then now else p.process_at;
  shard = shard;
  claimed_until = none;
  claimed_by = none;
  last_error = none;
  created_at = now;
  updated_at = now;
  completed_at = none;
}

abbrev pub Reply : Type 0
Reply = (Option InboundMessage × Error) × Session

-- Notify: the payload is sent on the channel.
unfoldable pub notify : String → Action (Unit {0})
notify event_type =
    context "tickr/postgres: pg_notify"
      (round_trip (λ now db. (tt, record db { notified = db.notified ++ event_type ∷ [] })))

abbrev pub error_of : {A : Type 0} → Result A → Error
error_of (ok _) = none
error_of (err e) = some e

-- notifyEnqueue
unfoldable pub notify_enqueue : Config → String → Session → Error × Session
notify_enqueue c event_type s =
    if c.notifier_disabled
    then (none, s)
    else (let (r, s') = notify event_type s in (error_of r, s'))

-- findByIdempotency; `ok none` is pgx.ErrNoRows
unfoldable pub find_by_idempotency : String → String → Action (Option Row)
find_by_idempotency event_type key =
    context "tickr/postgres: fetch by idempotency key"
      (round_trip (λ now db. (find_by_idem_sql event_type key db.messages, db)))

abbrev pub no_rows : Err
no_rows = wrapped "tickr/postgres: fetch by idempotency key" (text "no rows in result set")

module _ (c : Config) (d : Driver) where
  -- The existing message, with *ErrDuplicate.
  unfoldable pub existing : EnqueueParams → Row → Option InboundMessage × Error
  existing p r =
      (some (scan_message d r), some (duplicate (d.format r.id) p.event_type p.idempotency_key))

  unfoldable pub after_lookup : EnqueueParams → Result (Option Row) → Session → Reply
  after_lookup p (err e) s = ((none, some e), s)
  after_lookup p (ok none) s = ((none, some no_rows), s)
  after_lookup p (ok (some r)) s = (existing p r, s)

  -- After the INSERT.
  unfoldable pub after_insert : EnqueueParams → Result Insert → Session → Reply
  unfolding after_lookup
  after_insert p (err e) s = ((none, some (wrapped "tickr/postgres: enqueue" e)), s)
  after_insert p (ok (inserted r)) s =
      let (e, s') = notify_enqueue c p.event_type s in ((some (scan_message d r), e), s')
  after_insert p (ok id_taken) s =
      ((none, some (wrapped "tickr/postgres: enqueue" (text "duplicate key"))), s)
  after_insert p (ok skipped) s =
      if str_eq p.idempotency_key ""
      then ((none, some (text "tickr/postgres: enqueue returned no rows")), s)
      else (let (r, s') = find_by_idempotency p.event_type p.idempotency_key s in
          after_lookup p r s')

  unfoldable pub insert_new : ℕ → EnqueueParams → Session → Reply
  unfolding after_insert
  insert_new id p s =
      let (shard, s') = pick_shard s in
      let (r, s'') = round_trip (λ now. enqueue_sql c.partitioned (new_row s.now id shard p)) s' in
      after_insert p r s''

  -- The lookup ahead of the INSERT, in partitioned mode.
  unfoldable pub after_check : ℕ → EnqueueParams → Result (Option Row) → Session → Reply
  after_check id p (err e) s = ((none, some e), s)
  after_check id p (ok (some r)) s = (existing p r, s)
  after_check id p (ok none) s = insert_new id p s

  unfoldable pub enqueue : EnqueueParams → Session → Reply
  enqueue p s =
      let (id, s') = new_id s in
      if c.partitioned && not (str_eq p.idempotency_key "")
      then (let (r, s'') = find_by_idempotency p.event_type p.idempotency_key s' in
          after_check id p r s'')
      else insert_new id p s'
