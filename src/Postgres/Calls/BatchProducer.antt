-- ===== src/Postgres/Calls/BatchProducer.antt =====
-- EnqueueBatch stays within a respected preorder.
use tickr.Prelude.{
  ℕ, ◌∙◌, All, ◌<◌, String, List, [], ◌∷◌, Option, none, some, str_eq, ◌≡◌, refl, subst, sym, inl,
  inr, Bool-cases,
}
use tickr.Errors.{Error}
use tickr.Message.{EnqueueParams}
use tickr.Postgres.Table.{Row, Db, find_row}
use tickr.Postgres.Statements.{Insert, inserted, skipped, id_taken, enqueue_sql}
use tickr.Postgres.Session.{
  Driver, Session, Config, Result, ok, err, round_trip, pick_shard, new_id,
}
use tickr.Postgres.Session.Within
use tickr.Postgres.Session.Within.{Within, pick_shard-db, pick_shard-lt, new_id-db}
use tickr.Postgres.Enqueue.{new_row}
use tickr.Postgres.EnqueueBatch.{
  prepare, after_row, insert_each, or_nothing, batch_insert_sql, rows_of, Collected, after_skip,
  collect_one, collect, finish, after_batch, enqueue_batch,
}
use tickr.Postgres.Calls.{Kind, producing}
use tickr.Postgres.Calls.Respects.{Respects}
use tickr.Postgres.Calls.Producer.{notify_enqueue-Within, find_by_idempotency-Within}

-- A row that was made for its message.
abbrev Prepared : EnqueueParams × Row → Type 0
Prepared (p, r) = (now id shard : ℕ) × (shard < 16) × (r ≡ new_row now id shard p)

prepare-db : (ps : List EnqueueParams) (s : Session) → (prepare ps s).1.db ≡ s.db
unfolding prepare
prepare-db [] s = refl
prepare-db (p ∷ ps) s =
    let s' = (new_id s).1 in prepare-db ps (pick_shard s').1 ∙ pick_shard-db s' ∙ new_id-db s

prepare-Prepared : (ps : List EnqueueParams) (s : Session) → All Prepared (prepare ps s).0
unfolding prepare
prepare-Prepared [] s = tt
prepare-Prepared (p ∷ ps) s =
    let (id, s') = new_id s in
    let (shard, s'') = pick_shard s' in
    ((s.now, id, shard, pick_shard-lt s', refl), prepare-Prepared ps s'')

after_row-db : (i : Insert) (o : Option (List Row)) (db : Db) → (after_row i (o, db)).1 ≡ db
unfolding after_row
after_row-db (inserted r) none db = refl
after_row-db (inserted r) (some rs) db = refl
after_row-db skipped none db = refl
after_row-db skipped (some rs) db = refl
after_row-db id_taken none db = refl
after_row-db id_taken (some rs) db = refl

module _ (c : Config) (d : Driver) (R : Db → Db → Type 0) (on : Kind → Type 0)
    (h : Respects c on R) where
  insert_each-Within :
      on producing
      → (rows : List (EnqueueParams × Row)) (a : Db) → All Prepared rows
      → R a (insert_each c.partitioned (rows_of rows) a).1
  unfolding insert_each
  insert_each-Within q [] a k = h.refl_R a
  insert_each-Within q ((p, r) ∷ rows) a ((now, id, shard, lt, e), k) =
      let (i, b) = enqueue_sql c.partitioned r a in
      let (o, z) = insert_each c.partitioned (rows_of rows) b in
      subst (R a) (sym (after_row-db i o z)) (
        h.trans_R a b z
          (subst (λ x. R a (enqueue_sql c.partitioned x a).1) (sym e)
            (h.of_enqueue q now id shard p a lt))
          (insert_each-Within q rows b k))

  or_nothing-Within :
      (a : Db) (o : Option (List Row)) (b : Db) → R a b → R a (or_nothing a (o, b)).1
  unfolding or_nothing
  or_nothing-Within a none b k = h.refl_R a
  or_nothing-Within a (some rs) b k = k

  batch_insert-Within :
      on producing
      → (rows : List (EnqueueParams × Row)) (a : Db) → All Prepared rows
      → R a (batch_insert_sql c.partitioned (rows_of rows) a).1
  unfolding batch_insert_sql
  batch_insert-Within q rows a k =
      let (o, b) = insert_each c.partitioned (rows_of rows) a in
      or_nothing-Within a o b (insert_each-Within q rows a k)

  module _ (p : EnqueueParams) (rest : List (EnqueueParams × Row))
      (loop : Session → Collected × Session) (k : Within R loop) where
    after_skip-Within :
        (start : Db) (r : Result (Option Row)) (s : Session)
        → R start s.db
        → R start (after_skip c d p rest loop r s).1.db
    unfolding after_skip
    after_skip-Within start (err e) s b = b
    after_skip-Within start (ok none) s b = b
    after_skip-Within start (ok (some x)) s b = h.trans_R start s.db (loop s).1.db b (k s)

    collect_one-Within : (o : Option Row) → Within R (collect_one c d p rest loop o)
    unfolding collect_one
    collect_one-Within (some m) s = k s
    collect_one-Within none s = elim (Bool-cases (str_eq p.idempotency_key "")) [
      | inl e ↦ rw e (h.refl_R s.db)
      | inr e ↦ rw e (
          after_skip-Within s.db _ _
            (find_by_idempotency-Within c d R on h p.event_type p.idempotency_key s))
    ]

  collect-Within :
      (rows : List (EnqueueParams × Row)) (ins : List Row) → Within R (collect c d rows ins)
  unfolding collect
  collect-Within [] ins s = h.refl_R s.db
  collect-Within ((p, r) ∷ rows) ins s =
      collect_one-Within p rows (collect c d rows ins) (collect-Within rows ins) (find_row r.id ins)
        s

  finish-Within :
      (event_type : String) (ins : List Row) (k : Collected) (e : Error)
      → Within R (finish c d event_type ins k e)
  unfolding finish
  finish-Within event_type ins k (some e) s = h.refl_R s.db
  finish-Within event_type [] k none s = h.refl_R s.db
  finish-Within event_type (r ∷ rs) k none s = notify_enqueue-Within c d R on h event_type s

  after_batch-Within :
      (event_type : String) (rows : List (EnqueueParams × Row)) (start : Db)
      (r : Result (Option (List Row))) (s : Session)
      → R start s.db
      → R start (after_batch c d event_type rows r s).1.db
  unfolding after_batch
  after_batch-Within event_type rows start (err e) s b = b
  after_batch-Within event_type rows start (ok none) s b = b
  after_batch-Within event_type rows start (ok (some ins)) s b =
      let (k, s') = collect c d rows ins s in
      h.trans_R start s.db _ b (
        h.trans_R s.db s'.db _ (collect-Within rows ins s)
          (finish-Within event_type ins k k.fatal s'))

  pub enqueue_batch-Within :
      on producing → (ps : List EnqueueParams) → Within R (enqueue_batch c d ps)
  unfolding enqueue_batch
  enqueue_batch-Within q [] s = h.refl_R s.db
  enqueue_batch-Within q (p ∷ ps) s =
      let (rows, s') = prepare (p ∷ ps) s in
      let st = λ (now : ℕ). batch_insert_sql c.partitioned (rows_of rows) in
      after_batch-Within p.event_type rows s.db (round_trip st s').0 (round_trip st s').1 (
        subst (λ db. R db (round_trip st s').1.db) (prepare-db (p ∷ ps) s)
          (Within.round_trip-Within R h.refl_R h.trans_R st
            (λ now a. batch_insert-Within q rows a (prepare-Prepared (p ∷ ps) s)) s'))
