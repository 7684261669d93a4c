-- ===== src/Postgres/Calls/Producer.antt =====
-- Enqueue, EnqueueBatch and Notify stay within a respected preorder.
use tickr.Prelude.{
  ℕ, String, [], ◌∷◌, ◌++◌, not, ◌&&◌, Option, none, some, str_eq, subst, inl, inr, Bool-cases,
}
use tickr.Message.{EnqueueParams}
use tickr.Postgres.Table.{Row, Db}
use tickr.Postgres.Statements.{Insert, inserted, skipped, id_taken, enqueue_sql}
use tickr.Postgres.Session.{
  Driver, Session, Config, Result, ok, err, round_trip, pick_shard, new_id,
}
use tickr.Postgres.Session.Within
use tickr.Postgres.Session.Within.{Within, pick_shard-db, pick_shard-lt, new_id-db}
use tickr.Postgres.Enqueue
use tickr.Postgres.Enqueue.{new_row}
use tickr.Postgres.Calls.{Kind, producing}
use tickr.Postgres.Calls.Respects.{Respects, trip}

module _ (c : Config) (d : Driver) (R : Db → Db → Type 0) (on : Kind → Type 0)
    (h : Respects c on R) where
  pub notify-Within : (event_type : String) → Within R (Enqueue.notify event_type)
  unfolding Enqueue.notify
  notify-Within event_type =
      trip c d R on h _ _ (λ now a. h.of_notify a (a.notified ++ event_type ∷ []))

  pub notify_enqueue-Within : (event_type : String) → Within R (Enqueue.notify_enqueue c event_type)
  unfolding Enqueue.notify_enqueue
  notify_enqueue-Within event_type s = elim (Bool-cases c.notifier_disabled) [
    | inl e ↦ rw e (h.refl_R s.db)
    | inr e ↦ rw e (notify-Within event_type s)
  ]

  pub find_by_idempotency-Within :
      (event_type key : String) → Within R (Enqueue.find_by_idempotency event_type key)
  unfolding Enqueue.find_by_idempotency
  find_by_idempotency-Within event_type key = trip c d R on h _ _ (λ now a. h.refl_R a)

  after_lookup-Within :
      (p : EnqueueParams) (start : Db) (r : Result (Option Row)) (s : Session)
      → R start s.db
      → R start (Enqueue.after_lookup c d p r s).1.db
  unfolding Enqueue.after_lookup
  after_lookup-Within p start (err e) s k = k
  after_lookup-Within p start (ok none) s k = k
  after_lookup-Within p start (ok (some r)) s k = k

  after_insert-Within :
      (p : EnqueueParams) (start : Db) (r : Result Insert) (s : Session)
      → R start s.db
      → R start (Enqueue.after_insert c d p r s).1.db
  unfolding Enqueue.after_insert
  after_insert-Within p start (err e) s k = k
  after_insert-Within p start (ok (inserted r)) s k =
      h.trans_R start s.db _ k (notify_enqueue-Within p.event_type s)
  after_insert-Within p start (ok id_taken) s k = k
  after_insert-Within p start (ok skipped) s k = elim (Bool-cases (str_eq p.idempotency_key "")) [
    | inl e ↦ rw e k
    | inr e ↦ rw e (
        after_lookup-Within p start _ _
          (h.trans_R start s.db _ k (find_by_idempotency-Within p.event_type p.idempotency_key s)))
  ]

  insert_new-Within :
      on producing → (id : ℕ) (p : EnqueueParams) → Within R (Enqueue.insert_new c d id p)
  unfolding Enqueue.insert_new
  insert_new-Within q id p s =
      let (shard, s') = pick_shard s in
      let st = λ (now : ℕ). enqueue_sql c.partitioned (new_row s.now id shard p) in
      after_insert-Within p s.db (round_trip st s').0 (round_trip st s').1 (
        subst (λ db. R db (round_trip st s').1.db) (pick_shard-db s)
          (Within.round_trip-Within R h.refl_R h.trans_R st
            (λ now a. h.of_enqueue q s.now id shard p a (pick_shard-lt s)) s'))

  after_check-Within :
      on producing
      → (id : ℕ) (p : EnqueueParams) (start : Db) (r : Result (Option Row)) (s : Session)
      → R start s.db
      → R start (Enqueue.after_check c d id p r s).1.db
  unfolding Enqueue.after_check
  after_check-Within q id p start (err e) s k = k
  after_check-Within q id p start (ok (some r)) s k = k
  after_check-Within q id p start (ok none) s k =
      h.trans_R start s.db _ k (insert_new-Within q id p s)

  from_new_id : (s : Session) (db : Db) → R (new_id s).1.db db → R s.db db
  from_new_id s db k = subst (λ a. R a db) (new_id-db s) k

  pub enqueue-Within : on producing → (p : EnqueueParams) → Within R (Enqueue.enqueue c d p)
  unfolding Enqueue.enqueue
  enqueue-Within q p s =
      let (id, s') = new_id s in
      elim (Bool-cases (c.partitioned && not (str_eq p.idempotency_key ""))) [
        | inl e ↦ rw e (
            from_new_id s _ (
              after_check-Within q id p s'.db _ _
                (find_by_idempotency-Within p.event_type p.idempotency_key s')))
        | inr e ↦ rw e (from_new_id s _ (insert_new-Within q id p s'))
      ]
