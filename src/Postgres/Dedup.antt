-- ===== src/Postgres/Dedup.antt =====
-- The idempotency key: what Enqueue of storage/postgres/postgres.go answers and writes.
use tickr.Prelude.{
  ℕ, String, List, [], ◌∷◌, ◌++◌, true, false, Option, none, some, ◌≡◌, refl, ap, ◌∙◌, ◌⊎◌, inl,
  inr, Bool-cases, str_eq, str_eq_iff, is_some, some_of, arith,
}
use tickr.Errors.{Error, duplicate}
use tickr.Message.{InboundMessage, EnqueueParams}
use tickr.Postgres.Table.{Row, find_row, nullif, opt_is}
use tickr.Postgres.Statements.{conflicts, find_by_idem_sql, enqueue_sql}
use tickr.Postgres.Session.{
  Driver, Session, Config, ok, context, pick_shard, draw, new_id, supply, scan_message,
}
use tickr.Postgres.Session.Within.{pick_shard-db, new_id-db}
use tickr.Postgres.Session.Outcomes.{round_trip-made}
use tickr.Postgres.Enqueue.{
  new_row, notify_enqueue, find_by_idempotency, existing, after_lookup, after_insert, insert_new,
  after_check, enqueue,
}

-- Without partitions, ON CONFLICT skips a row exactly when the lookup by its key finds one.
conflicts-find :
    (now id shard : ℕ) (p : EnqueueParams) (ms : List Row)
    → str_eq p.idempotency_key "" ≡ false
    → some_of (conflicts false (new_row now id shard p)) ms
      ≡ is_some (find_by_idem_sql p.event_type p.idempotency_key ms)
unfolding conflicts new_row nullif find_by_idem_sql
conflicts-find now id shard p [] h = refl
conflicts-find now id shard p (r ∷ rs) h = ground (arith, conflicts-find now id shard p rs h)

pub pick_shard-wires : (s : Session) → (pick_shard s).1.wires ≡ s.wires
unfolding pick_shard
pick_shard-wires s = go s.draws
  where
    go : (ks : List ℕ) → (draw ks s).1.wires ≡ s.wires
    go [] = refl
    go (k ∷ ks) = refl

pub new_id-wires : (s : Session) → (new_id s).1.wires ≡ s.wires
unfolding new_id
new_id-wires s = go s.ids
  where
    go : (ks : List ℕ) → (supply ks s).1.wires ≡ s.wires
    go [] = refl
    go (k ∷ ks) = refl

find_by_idempotency-made :
    (event_type key : String) (s : Session)
    → s.wires ≡ []
    → find_by_idempotency event_type key s
      ≡ (ok (find_by_idem_sql event_type key s.db.messages), record s { wires = [] })
unfolding find_by_idempotency context
find_by_idempotency-made event_type key s e = rw (round_trip-made _ s e)

module _ (c : Config) (d : Driver) (p : EnqueueParams) (r : Row) where
  -- What a duplicate is answered.
  abbrev pub duplicate_of : Option InboundMessage × Error
  duplicate_of =
      (some (scan_message d r), some (duplicate (d.format r.id) p.event_type p.idempotency_key))

  abbrev pub IsDuplicateReply : Session → (Option InboundMessage × Error) × Session → Type 0
  IsDuplicateReply s reply = (reply.0 ≡ duplicate_of) × (reply.1.db ≡ s.db)

  insert_new-duplicate :
      (id : ℕ) (s : Session)
      → s.wires ≡ []
      → c.partitioned ≡ false
      → str_eq p.idempotency_key "" ≡ false
      → find_by_idem_sql p.event_type p.idempotency_key s.db.messages ≡ some r
      → IsDuplicateReply s (insert_new c d id p s)
  unfolding insert_new after_insert enqueue_sql after_lookup existing
  insert_new-duplicate id s e whole keyed found =
      let t = (pick_shard s).1 in
      let k = (pick_shard s).0 in
      let same : t.db ≡ s.db = pick_shard-db s in
      let clash : some_of (conflicts false (new_row s.now id k p)) t.db.messages ≡ true =
        rw same (conflicts-find s.now id k p s.db.messages keyed ∙ ap is_some found) in
      rw
        (
          round_trip-made (λ (now : ℕ). enqueue_sql c.partitioned (new_row s.now id k p)) t
              (pick_shard-wires s ∙ e),
          whole,
          clash,
          keyed,
        )
        (rw
          (
            find_by_idempotency-made p.event_type p.idempotency_key (record t { wires = [] }) refl,
            same,
            found,
          )
          (refl, refl))

  -- Enqueue of a message whose (type, key) is already in the table answers the stored message and
  -- *ErrDuplicate with its id, and writes nothing; with and without partitions, if no round trip
  -- fails.
  pub enqueue-duplicate :
      (s : Session)
      → s.wires ≡ []
      → str_eq p.idempotency_key "" ≡ false
      → find_by_idem_sql p.event_type p.idempotency_key s.db.messages ≡ some r
      → IsDuplicateReply s (enqueue c d p s)
  unfolding enqueue after_check existing
  enqueue-duplicate s e keyed found =
      let t = (new_id s).1 in
      let same : t.db ≡ s.db = new_id-db s in
      let quiet : t.wires ≡ [] = new_id-wires s ∙ e in
      elim (Bool-cases c.partitioned) [
        | inl q ↦
            rw
              (
                q,
                keyed,
                find_by_idempotency-made p.event_type p.idempotency_key t quiet,
                same,
                found,
              )
              (refl, refl)
        | inr q ↦
            (let dup =
                insert_new-duplicate (new_id s).0 t quiet q keyed
                  (rw (ap (λ x. x.messages) same) found) in
              simp q (dup.0, dup.1 ∙ same))
      ]

conflicts-unkeyed :
    (now id shard : ℕ) (p : EnqueueParams) (ms : List Row)
    → str_eq p.idempotency_key "" ≡ true
    → some_of (conflicts false (new_row now id shard p)) ms ≡ false
unfolding conflicts new_row nullif
conflicts-unkeyed now id shard p [] h = refl
conflicts-unkeyed now id shard p (r ∷ rs) h = ground (arith, conflicts-unkeyed now id shard p rs h)

new_id-now : (s : Session) → (new_id s).1.now ≡ s.now
unfolding new_id
new_id-now s = go s.ids
  where
    go : (ks : List ℕ) → (supply ks s).1.now ≡ s.now
    go [] = refl
    go (k ∷ ks) = refl

new_row-fresh :
    (now id shard : ℕ) (p : EnqueueParams) (ms : List Row)
    → find_row id ms ≡ none
    → is_some (find_row (new_row now id shard p).id ms) ≡ false
unfolding new_row
new_row-fresh now id shard p ms h = ap is_some h

module _ (c : Config) (d : Driver) (p : EnqueueParams) (s : Session) where
  -- The row that `Enqueue` of `p` makes in the session.
  abbrev pub row_made : Row
  row_made = new_row s.now (new_id s).0 (pick_shard (new_id s).1).0 p

  no_conflict :
      (str_eq p.idempotency_key "" ≡ true)
        ⊎ (find_by_idem_sql p.event_type p.idempotency_key s.db.messages ≡ none)
      → some_of (conflicts false row_made) s.db.messages ≡ false
  no_conflict (inl h) = conflicts-unkeyed _ _ _ p s.db.messages h
  no_conflict (inr h) = elim (Bool-cases (str_eq p.idempotency_key "")) [
    | inl k ↦ conflicts-unkeyed _ _ _ p s.db.messages k
    | inr k ↦ conflicts-find _ _ _ p s.db.messages k ∙ ap is_some h
  ]

  pub enqueue_inserts :
      s.wires ≡ []
      → c.partitioned ≡ false
      → c.notifier_disabled ≡ true
      → (str_eq p.idempotency_key "" ≡ true)
        ⊎ (find_by_idem_sql p.event_type p.idempotency_key s.db.messages ≡ none)
      → find_row (new_id s).0 s.db.messages ≡ none
      → ((enqueue c d p s).0 ≡ (some (scan_message d row_made), none))
        × ((enqueue c d p s).1.db.messages ≡ s.db.messages ++ row_made ∷ [])
  unfolding enqueue insert_new after_insert enqueue_sql notify_enqueue
  enqueue_inserts e whole silent free fresh =
      let t = (new_id s).1 in
      let t' = (pick_shard t).1 in
      let same : t'.db ≡ s.db = pick_shard-db t ∙ new_id-db s in
      let clash : some_of (conflicts false row_made) t'.db.messages ≡ false =
        rw same (no_conflict free) in
      let new : is_some (find_row row_made.id t'.db.messages) ≡ false =
        rw same (new_row-fresh _ _ _ p s.db.messages fresh) in
      rw
        (
          whole,
          new_id-now s,
          round_trip-made (λ (now : ℕ). enqueue_sql false row_made) t'
              (pick_shard-wires t ∙ (new_id-wires s ∙ e)),
          clash,
          new,
          silent,
          same,
        )
        (refl, refl)

find_by_idem-append :
    (event_type key : String) (ms : List Row) (r : Row)
    → find_by_idem_sql event_type key ms ≡ none
    → str_eq r.event_type event_type ≡ true
    → opt_is key r.idempotency_key ≡ true
    → find_by_idem_sql event_type key (ms ++ r ∷ []) ≡ some r
unfolding find_by_idem_sql
find_by_idem-append event_type key [] r h t k = ground arith
find_by_idem-append event_type key (m ∷ ms) r h t k =
    ground (arith, find_by_idem-append event_type key ms r)

new_row-found :
    (now id shard : ℕ) (p : EnqueueParams)
    → str_eq p.idempotency_key "" ≡ false
    → (str_eq (new_row now id shard p).event_type p.event_type ≡ true)
      × (opt_is p.idempotency_key (new_row now id shard p).idempotency_key ≡ true)
unfolding new_row nullif
new_row-found now id shard p h = (
  ground (arith, str_eq_iff p.event_type p.event_type),
  rw h (ground (arith, str_eq_iff p.idempotency_key p.idempotency_key)),
)

-- A message with a key that is enqueued again, by any producer and with any payload, is answered
-- with the first message and *ErrDuplicate, and nothing is written. The first one went into a
-- table without the key, under a new id; without partitions and notifications, if no round trip
-- fails.
pub enqueue-twice :
    (c : Config) (d : Driver) (p q : EnqueueParams) (s t : Session)
    → s.wires ≡ []
    → t.wires ≡ []
    → c.partitioned ≡ false
    → c.notifier_disabled ≡ true
    → str_eq p.idempotency_key "" ≡ false
    → find_by_idem_sql p.event_type p.idempotency_key s.db.messages ≡ none
    → find_row (new_id s).0 s.db.messages ≡ none
    → t.db ≡ (enqueue c d p s).1.db
    → q.event_type ≡ p.event_type
    → q.idempotency_key ≡ p.idempotency_key
    → IsDuplicateReply c d q (row_made c d p s) t (enqueue c d q t)
enqueue-twice c d p q s t es et whole silent keyed absent fresh after same_type same_key =
    let found = new_row-found s.now (new_id s).0 (pick_shard (new_id s).1).0 p keyed in
    enqueue-duplicate c d q (row_made c d p s) t et (rw same_key keyed) (
      rw
        (same_type, same_key, after, (enqueue_inserts c d p s es whole silent (inr absent) fresh).1)
        (find_by_idem-append p.event_type p.idempotency_key s.db.messages (row_made c d p s) absent
          found.0 found.1))
