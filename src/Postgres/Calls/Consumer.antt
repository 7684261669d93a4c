-- ===== src/Postgres/Calls/Consumer.antt =====
-- Claim and the administrative methods stay within a respected preorder.
use tickr.Prelude.{
  ℕ, String, List, [], ◌∷◌, map, Option, none, some, if◌then◌else◌, length, ◌==◌, ℤ, subst, inl,
  inr, Bool-cases, or_default,
}
use tickr.Message.{Status, InboundMessage, ClaimParams}
use tickr.Postgres.Table.{Row, Db}
use tickr.Postgres.Statements.{append_history_sql, requeue_sql}
use tickr.Postgres.Session.{
  Driver, Session, Config, Result, ok, err, round_trip, context, pick_shard, scan_message,
}
use tickr.Postgres.Session.Within
use tickr.Postgres.Session.Within.{Within, pick_shard-db, pick_shard-lt, new_id-db}
use tickr.Postgres.Claim
use tickr.Postgres.Admin
use tickr.Postgres.Calls.{Kind, claiming, requeuing, reclaiming, purging}
use tickr.Postgres.Calls.Respects.{Respects, trip, parsed}

module _ (c : Config) (d : Driver) (R : Db → Db → Type 0) (on : Kind → Type 0)
    (h : Respects c on R) where
  of_append_each :
      (qs : List (ℕ × ℕ)) (to : Status) (error worker : String) (now : ℕ) (a : Db)
      → R a (Claim.append_each d qs to error worker now a)
  unfolding Claim.append_each
  of_append_each [] to error worker now a = h.refl_R a
  of_append_each ((i, attempt) ∷ qs) to error worker now a =
      h.trans_R a (append_history_sql now i none to attempt error worker a) _
        (h.of_append now i none to attempt error worker a) (of_append_each qs to error worker now _)

  append_history_batch-Within :
      (ms : List InboundMessage) (to : Status) (error worker : String)
      → Within R (Claim.append_history_batch d ms to error worker)
  unfolding Claim.append_history_batch
  append_history_batch-Within [] to error worker s = h.refl_R s.db
  append_history_batch-Within (m ∷ ms) to error worker s =
      Within.send_batch-Within R h.refl_R h.trans_R d (length (Claim.queue_history d (m ∷ ms)))
        (length (m ∷ ms)) _ (of_append_each (Claim.queue_history d (m ∷ ms)) to error worker) s

  record_claims-Within :
      (worker : String) (ms : List InboundMessage) → Within R (Claim.record_claims d c worker ms)
  unfolding Claim.record_claims
  record_claims-Within worker [] s = h.refl_R s.db
  record_claims-Within worker (m ∷ ms) s = elim (Bool-cases c.history_off) [
    | inl e ↦ rw e (h.refl_R s.db)
    | inr e ↦ rw e (append_history_batch-Within (m ∷ ms) Status.handling "" worker s)
  ]

  claim_query-Within :
      on claiming → (p : ClaimParams) (shard : Option ℕ) → Within R (Claim.claim_query d p shard)
  unfolding Claim.claim_query
  claim_query-Within q p shard = trip c d R on h _ _ (λ now. h.of_claim q now _ _ _ _ shard)

  after_all-Within :
      (p : ClaimParams) (start : Db) (r : Result (List Row)) (s : Session)
      → R start s.db
      → R start (Claim.after_all d c p r s).1.db
  unfolding Claim.after_all
  after_all-Within p start (err e) s k = k
  after_all-Within p start (ok rows) s k =
      h.trans_R start s.db _ k (record_claims-Within p.worker_id _ s)

  claim_all-Within : on claiming → (p : ClaimParams) → Within R (Claim.claim_all d c p)
  unfolding Claim.claim_all
  claim_all-Within q p s =
      after_all-Within p s.db (Claim.claim_query d p none s).0 (Claim.claim_query d p none s).1
        (claim_query-Within q p none s)

  after_shard-Within :
      on claiming
      → (p : ClaimParams) (start : Db) (r : Result (List Row)) (s : Session) → R start s.db
      → R start (Claim.after_shard d c p r s).1.db
  unfolding Claim.after_shard
  after_shard-Within q p start (err e) s k = k
  after_shard-Within q p start (ok []) s k = h.trans_R start s.db _ k (claim_all-Within q p s)
  after_shard-Within q p start (ok (r ∷ rs)) s k =
      h.trans_R start s.db _ k (record_claims-Within p.worker_id _ s)

  pub claim-Within : on claiming → (p : ClaimParams) → Within R (Claim.claim d c p)
  unfolding Claim.claim
  claim-Within q p s =
      let (shard, s') = pick_shard s in
      after_shard-Within q p s.db (Claim.claim_query d p (some shard) s').0
        (Claim.claim_query d p (some shard) s').1
        (subst (λ db. R db (Claim.claim_query d p (some shard) s').1.db) (pick_shard-db s)
          (claim_query-Within q p (some shard) s'))

  pub history-Within : (id : String) → Within R (Admin.history d id)
  unfolding Admin.history
  history-Within id = parsed c d R on h _ id _ (λ i.
      Within.bind-Within R h.refl_R h.trans_R _ _ (trip c d R on h _ _ (λ now a. h.refl_R a))
        (λ hs. Within.pure-Within R h.refl_R h.trans_R (map (Admin.scan_transition d) hs)))

  pub list_dead-Within :
      (event_type : String) (after : ℕ) (limit : ℤ)
      → Within R (Admin.list_dead d event_type after limit)
  unfolding Admin.list_dead
  list_dead-Within event_type after limit =
      Within.bind-Within R h.refl_R h.trans_R _ _ (trip c d R on h _ _ (λ now a. h.refl_R a))
        (λ rows. Within.pure-Within R h.refl_R h.trans_R (map (scan_message d) rows))

  append_history-Within :
      (id : String) (from : Option Status) (to : Status) (attempt : ℕ) (error worker : String)
      → Within R (Admin.append_history d id from to attempt error worker)
  unfolding Admin.append_history
  append_history-Within id from to attempt error worker =
      parsed c d R on h _ id _
        (λ i. trip c d R on h _ _ (λ now. h.of_append now i from to attempt error worker))

  after_requeue-Within : (id : String) (n : ℕ) → Within R (Admin.after_requeue d id n)
  after_requeue-Within id n s = elim (Bool-cases (n == 0)) [
    | inl e ↦ rw e (h.refl_R s.db)
    | inr e ↦
        rw e (append_history-Within id (some Status.dead) Status.created 0 "manual requeue" "" s)
  ]

  pub requeue-Within : on requeuing → (id : String) (at : ℕ) → Within R (Admin.requeue d id at)
  unfolding Admin.requeue
  requeue-Within q id at = parsed c d R on h _ id _ (λ i.
      Within.bind-Within R h.refl_R h.trans_R
        (context "tickr/postgres: requeue"
          (round_trip (λ now. requeue_sql now i (if at == 0 then now else at))))
        (Admin.after_requeue d id)
        (trip c d R on h _ _ (λ now. h.of_requeue q now i (if at == 0 then now else at)))
        (after_requeue-Within id))

  pub reclaim_expired-Within : on reclaiming → (limit : ℤ) → Within R (Admin.reclaim_expired limit)
  unfolding Admin.reclaim_expired
  reclaim_expired-Within q limit =
      trip c d R on h _ _ (λ now. h.of_reclaim q now (or_default limit 500))

  pub purge_terminal-Within :
      on purging → (before : ℕ) (limit : ℤ) → Within R (Admin.purge_terminal before limit)
  unfolding Admin.purge_terminal
  purge_terminal-Within q before limit =
      trip c d R on h _ _ (λ now. h.of_purge q before (or_default limit 5000))

  pub purge_history-Within : (before : ℕ) (limit : ℤ) → Within R (Admin.purge_history before limit)
  unfolding Admin.purge_history
  purge_history-Within before limit =
      trip c d R on h _ _ (λ now. h.of_purge_history before (or_default limit 5000))
