-- ===== src/Mysql/Lifecycle/Runs.antt =====
-- The state machine of the MySQL store over whole runs of calls (storage/mysql/mysql.go).
use tickr.Prelude.{
  ℕ, String, List, [], ◌∷◌, map, Option, none, some, ltb, str_eq, ◌≡◌, subst, sym, refl, ◌∙◌, inl,
  inr, Bool-cases, or_default, ℤ,
}
use tickr.Errors.{wrapped}
use tickr.Message.{
  Status, InboundMessage, EnqueueParams, ClaimParams, FailParams, BatchSucceedParam,
}
use tickr.Postgres.Table.{Row, Db, find_row}
use tickr.Postgres.Statements.{
  Insert, inserted, skipped, id_taken, holds, is_dead_letter_row, purge_history_sql,
}
use tickr.Postgres.Enqueue.{new_row}
use tickr.Postgres.Admin.{history_sql}
use tickr.Postgres.Rows.{UniqueIds}
use tickr.Postgres.Session.{
  Session, Result, ok, err, ◌>>◌, pure, round_trip, context, pick_shard, new_id,
}
use tickr.Postgres.Session.Within
use tickr.Postgres.Session.Within.{Within, pick_shard-db, new_id-db}
use tickr.Postgres.Lifecycle.{Change}
use tickr.Postgres.Calls.{
  Call, enqueue, enqueue_batch, claim, succeed, batch_succeed, fail, release_shutdown, extend,
  history, list_dead, requeue, reclaim_expired, purge_terminal, purge_history, notify, sleep, Kind,
  kind_of, reading, producing, claiming, succeeding, failing, releasing, extending, requeuing,
  reclaiming, purging,
}
use tickr.Mysql.Session.{Ids, exec, transaction, scan_message}
use tickr.Mysql.Statements.{
  succeed_row, release_row, requeue_row, update_sql, reclaim_sql, purge_sql, list_dead_sql, held_by,
  extend_held_sql, insert_sql, find_by_key_sql,
}
use tickr.Mysql.Enqueue
use tickr.Mysql.Claim
use tickr.Mysql.Claim.{append_history}
use tickr.Mysql.Ack
use tickr.Mysql.Admin
use tickr.Mysql.Calls.{perform, perform_all}
use tickr.Mysql.Lifecycle.{Moved, Onward, Onward-refl, Onward-trans}
use tickr.Mysql.Lifecycle.Statements.{
  held_by-handling, succeed_row-Onward, dead_row-Onward, retry_row-Onward, release_row-Onward,
  extend_held_sql-Onward, requeue_row-Onward, reclaim_sql-Onward, purge_sql-Onward,
  purge_history_sql-Onward, insert_sql-Onward,
}
use tickr.Mysql.Lifecycle.Transactions.{
  transaction-Onward, bind-Onward, pure-Onward, trip-Onward, read-Onward, exec-Onward,
}
use tickr.Mysql.Lifecycle.Claiming.{append_history-Onward, claim_body-Onward}
use tickr.Postgres.Lifecycle.Statements.{holds-handling}

update_and_record-Onward :
    (kind : Kind) (what : String) (st : ℕ → Db → Db) (i : ℕ) (to : Status) (attempt : ℕ)
    (error worker : String)
    → ((now : ℕ) (db : Db) → Onward kind db (st now db))
    → Within (Onward kind) (Ack.update_and_record what st i to attempt error worker)
unfolding Ack.update_and_record
update_and_record-Onward kind what st i to attempt error worker h =
    bind-Onward kind (context what (exec st))
      (λ x. append_history i Status.handling to attempt error worker) (exec-Onward kind what st h)
      (λ x. append_history-Onward kind i Status.handling to attempt error worker)

module _ (d : Ids) where
  succeed_each-Onward :
      (ps : List BatchSucceedParam) → Within (Onward succeeding) (Ack.succeed_each d ps)
  unfolding Ack.succeed_each
  succeed_each-Onward [] = pure-Onward succeeding tt
  succeed_each-Onward (p ∷ ps) =
      let i = d.code p.message_id in
      bind-Onward succeeding
        (Ack.update_and_record "tickr/mysql: batch succeed update"
          (λ now. update_sql (holds i p.attempt) (succeed_row now)) i Status.success p.attempt ""
          p.worker_id)
        (λ x. Ack.succeed_each d ps)
        (update_and_record-Onward succeeding "tickr/mysql: batch succeed update"
          (λ now. update_sql (holds i p.attempt) (succeed_row now)) i Status.success p.attempt ""
          p.worker_id
          (λ now db.
            succeed_row-Onward now db (holds i p.attempt)
              (λ r h. (holds-handling i p.attempt r h).1)))
        (λ x. succeed_each-Onward ps)

  batch_succeed-Onward :
      (ps : List BatchSucceedParam) → Within (Onward succeeding) (Ack.batch_succeed d ps)
  unfolding Ack.batch_succeed
  batch_succeed-Onward [] = pure-Onward succeeding tt
  batch_succeed-Onward (p ∷ ps) =
      transaction-Onward succeeding (wrapped "tickr/mysql: batch succeed begin") Ack.bare_commit
        (Ack.succeed_each d (p ∷ ps)) (succeed_each-Onward (p ∷ ps))

  succeed-Onward :
      (id : String) (attempt : ℕ) (worker : String)
      → Within (Onward succeeding) (Ack.succeed d id attempt worker)
  unfolding Ack.succeed
  succeed-Onward id attempt worker =
      transaction-Onward succeeding (wrapped "tickr/mysql: succeed begin") Ack.bare_commit
        (Ack.update_and_record _ _ _ _ _ _ _)
        (update_and_record-Onward succeeding "tickr/mysql: succeed update"
          (λ now. update_sql (held_by d (d.code id) worker) (succeed_row now)) (d.code id)
          Status.success attempt "" worker
          (λ now db.
            succeed_row-Onward now db (held_by d (d.code id) worker)
              (held_by-handling d (d.code id) worker)))

  fail_body-Onward : (p : FailParams) → Within (Onward failing) (Ack.fail_body d p)
  unfolding Ack.fail_body
  fail_body-Onward p = elim (Bool-cases p.fatal) [
    | inl e ↦ rw e (
        update_and_record-Onward failing "tickr/mysql: fail->dead" _ _ Status.dead p.attempt p.err
          p.worker_id (λ now db. dead_row-Onward now db d (d.code p.message_id) p.worker_id p.err))
    | inr e ↦ rw e (
        update_and_record-Onward failing "tickr/mysql: fail->retry" _ _ Status.retrying p.attempt
          p.err p.worker_id
          (λ now db.
            retry_row-Onward now db d (d.code p.message_id) p.worker_id p.err p.next_retry_at))
  ]

  release_shutdown-Onward :
      (id : String) (attempt : ℕ) (worker reason : String)
      → Within (Onward releasing) (Ack.release_shutdown d id attempt worker reason)
  unfolding Ack.release_shutdown
  release_shutdown-Onward id attempt worker reason =
      transaction-Onward releasing Ack.bare Ack.bare_commit (Ack.update_and_record _ _ _ _ _ _ _) (
        update_and_record-Onward releasing "tickr/mysql: release-shutdown"
          (λ now. update_sql (held_by d (d.code id) worker) (release_row now)) (d.code id)
          Status.retrying attempt reason worker
          (λ now db. release_row-Onward now db d (d.code id) worker))

  extend-Onward :
      (id worker : String) (until : ℕ) → Within (Onward extending) (Ack.extend d id worker until)
  unfolding Ack.extend
  extend-Onward id worker until =
      bind-Onward extending
        (context "tickr/mysql: extend"
          (round_trip (λ now. extend_held_sql d now (d.code id) worker until)))
        (λ n. pure (ltb 0 n))
        (trip-Onward extending "tickr/mysql: extend"
          (λ now. extend_held_sql d now (d.code id) worker until)
          (λ now db. extend_held_sql-Onward now db d (d.code id) worker until))
        (λ n. pure-Onward extending (ltb 0 n))

  requeue-Onward : (id : String) (at : ℕ) → Within (Onward requeuing) (Admin.requeue d id at)
  unfolding Admin.requeue
  requeue-Onward id at =
      transaction-Onward requeuing Ack.bare Ack.bare_commit
        (context "tickr/mysql: requeue"
            (exec (λ now. update_sql (is_dead_letter_row (d.code id)) (requeue_row now at)))
          >> append_history (d.code id) Status.dead Status.created 0 "admin requeue" "")
        (bind-Onward requeuing
          (context "tickr/mysql: requeue"
            (exec (λ now. update_sql (is_dead_letter_row (d.code id)) (requeue_row now at))))
          (λ x. append_history (d.code id) Status.dead Status.created 0 "admin requeue" "")
          (exec-Onward requeuing "tickr/mysql: requeue"
            (λ now. update_sql (is_dead_letter_row (d.code id)) (requeue_row now at))
            (λ now db. requeue_row-Onward now db (d.code id) at))
          (λ x.
            append_history-Onward requeuing (d.code id) Status.dead Status.created 0 "admin requeue"
              ""))

  history-Onward : (id : String) → Within (Onward reading) (Admin.history d id)
  unfolding Admin.history
  history-Onward id =
      bind-Onward reading
        (context "tickr/mysql: history"
          (round_trip (λ now db. (history_sql (d.code id) db.history, db))))
        (λ hs. pure (map (Admin.scan_transition d) hs))
        (read-Onward reading "tickr/mysql: history" (λ now db. history_sql (d.code id) db.history))
        (λ hs. pure-Onward reading (map (Admin.scan_transition d) hs))

  reply_of-db :
      (p : ClaimParams) (x : Result (List InboundMessage) × Session)
      → (Claim.reply_of d p x).1.db ≡ x.1.db
  reply_of-db p (ok ms, s) = refl
  reply_of-db p (err e, s) = refl

  claim_for-Onward :
      (p : ClaimParams) (ts : List String) (s : Session)
      → Onward claiming s.db (Claim.claim_for d p ts s).1.db
  claim_for-Onward p [] s = Onward-refl claiming s.db
  claim_for-Onward p (t ∷ ts) s =
      let (shard, s') = pick_shard s in
      let run =
        transaction (wrapped "tickr/mysql: begin claim tx") (Claim.claim_commit_err d p)
          (Claim.claim_body d p shard) in
      subst (Onward claiming s.db) (sym (reply_of-db p (run s'))) (
        subst (λ db. Onward claiming db (run s').1.db) (pick_shard-db s)
          (transaction-Onward claiming (wrapped "tickr/mysql: begin claim tx")
            (Claim.claim_commit_err d p) (Claim.claim_body d p shard) (claim_body-Onward d p shard)
            s'))

  claim-Onward : (p : ClaimParams) (s : Session) → Onward claiming s.db (Claim.claim d p s).1.db
  unfolding Claim.claim
  claim-Onward p s = claim_for-Onward p p.event_types s

  list_dead-Onward :
      (event_type : String) (after : ℕ) (limit : ℤ)
      → Within (Onward reading) (Admin.list_dead d event_type after limit)
  unfolding Admin.list_dead
  list_dead-Onward event_type after limit =
      bind-Onward reading
        (context "tickr/mysql: list dead" (
          round_trip
            (λ now db. (list_dead_sql d event_type after (or_default limit 50) db.messages, db))))
        (λ rows. pure (map (scan_message d) rows))
        (read-Onward reading "tickr/mysql: list dead"
          (λ now db. list_dead_sql d event_type after (or_default limit 50) db.messages))
        (λ rows. pure-Onward reading (map (scan_message d) rows))

  -- What Enqueue reads after its INSERT leaves the tables.
  fetched-db : (x : Result (Option Row) × Session) → (Enqueue.fetched d x).1.db ≡ x.1.db
  fetched-db (err e, s) = refl
  fetched-db (ok none, s) = refl
  fetched-db (ok (some r), s) = refl

  existing-db :
      (p : EnqueueParams) (x : Result (Option Row) × Session)
      → (Enqueue.existing d p x).1.db ≡ x.1.db
  existing-db p (err e, s) = refl
  existing-db p (ok none, s) = refl
  existing-db p (ok (some r), s) = refl

  on_duplicate-Onward :
      (p : EnqueueParams) (s : Session) → Onward producing s.db (Enqueue.on_duplicate d p s).1.db
  unfolding Enqueue.find_by_idempotency
  on_duplicate-Onward p s = elim (Bool-cases (str_eq p.idempotency_key "")) [
    | inl e ↦ rw e (Onward-refl producing s.db)
    | inr e ↦ rw e (
        subst (Onward producing s.db)
          (sym (existing-db p (Enqueue.find_by_idempotency d p.event_type p.idempotency_key s)))
          (read-Onward producing "tickr/mysql: fetch by idempotency key"
            (λ now db. find_by_key_sql d p.event_type p.idempotency_key db.messages) s))
  ]

  after_insert-Onward :
      (p : EnqueueParams) (id : ℕ) (x : Result Insert × Session)
      → Onward producing x.1.db (Enqueue.after_insert d p id x).1.db
  unfolding Enqueue.find_by_id
  after_insert-Onward p id (err e, s) = Onward-refl producing s.db
  after_insert-Onward p id (ok (inserted r), s) =
      subst (Onward producing s.db) (sym (fetched-db (Enqueue.find_by_id id s))) (
        Within.round_trip-Within (Onward producing) (Onward-refl producing) (Onward-trans producing)
          (λ now db. (find_row id db.messages, db)) (λ now db. Onward-refl producing db) s)
  after_insert-Onward p id (ok skipped, s) = on_duplicate-Onward p s
  after_insert-Onward p id (ok id_taken, s) = on_duplicate-Onward p s

  enqueue-Onward :
      (p : EnqueueParams) (s : Session) → Onward producing s.db (Enqueue.enqueue d p s).1.db
  unfolding Enqueue.enqueue
  enqueue-Onward p s =
      let (id, s1) = new_id s in
      let (shard, s2) = pick_shard s1 in
      let st : ℕ → Db → Insert × Db = λ now. insert_sql d (new_row now id shard p) in
      Onward-trans producing s.db (round_trip st s2).1.db
        (Enqueue.after_insert d p id (round_trip st s2)).1.db
        (subst (λ db. Onward producing db (round_trip st s2).1.db) (pick_shard-db s1 ∙ new_id-db s)
          (Within.round_trip-Within (Onward producing) (Onward-refl producing)
            (Onward-trans producing) st (λ now db. insert_sql-Onward d now id shard p db) s2))
        (after_insert-Onward p id (round_trip st s2))

  enqueue_batch-Onward :
      (ps : List EnqueueParams) (s : Session)
      → Onward producing s.db (Enqueue.enqueue_batch d ps s).1.db
  unfolding Enqueue.enqueue_batch
  enqueue_batch-Onward [] s = Onward-refl producing s.db
  enqueue_batch-Onward (p ∷ ps) s =
      Onward-trans producing s.db (Enqueue.enqueue d p s).1.db
        (Enqueue.enqueue_batch d ps (Enqueue.enqueue d p s).1).1.db (enqueue-Onward p s)
        (enqueue_batch-Onward ps (Enqueue.enqueue d p s).1)

  fail-Onward : (p : FailParams) → Within (Onward failing) (Ack.fail d p)
  unfolding Ack.fail
  fail-Onward p =
      transaction-Onward failing (wrapped "tickr/mysql: fail begin") Ack.bare_commit
        (Ack.fail_body d p) (fail_body-Onward p)

  perform-Onward : (k : Call) (s : Session) → Onward (kind_of k) s.db (perform d k s).db
  unfolding perform Admin.reclaim_expired Admin.purge_terminal Admin.purge_history
  perform-Onward (enqueue p) s = enqueue-Onward p s
  perform-Onward (enqueue_batch ps) s = enqueue_batch-Onward ps s
  perform-Onward (claim p) s = claim-Onward p s
  perform-Onward (succeed id attempt worker) s = succeed-Onward id attempt worker s
  perform-Onward (batch_succeed ps) s = batch_succeed-Onward ps s
  perform-Onward (fail p) s = fail-Onward p s
  perform-Onward (release_shutdown id attempt worker reason) s =
      release_shutdown-Onward id attempt worker reason s
  perform-Onward (extend id worker until) s = extend-Onward id worker until s
  perform-Onward (history id) s = history-Onward id s
  perform-Onward (list_dead event_type after limit) s = list_dead-Onward event_type after limit s
  perform-Onward (requeue id at) s = requeue-Onward id at s
  perform-Onward (reclaim_expired limit) s =
      trip-Onward reclaiming "tickr/mysql: reclaim" (λ now. reclaim_sql now (or_default limit 500))
        (λ now db. reclaim_sql-Onward now db (or_default limit 500)) s
  perform-Onward (purge_terminal before limit) s =
      trip-Onward purging "tickr/mysql: purge" (λ now. purge_sql before (or_default limit 5000))
        (λ now db. purge_sql-Onward before (or_default limit 5000) db) s
  perform-Onward (purge_history before limit) s =
      trip-Onward reading "tickr/mysql: purge history"
        (λ now. purge_history_sql before (or_default limit 5000))
        (λ now db. purge_history_sql-Onward before (or_default limit 5000) db) s
  perform-Onward (notify event_type) s = Onward-refl reading s.db
  perform-Onward (sleep n) s = Onward-refl reading s.db

  perform_all-UniqueIds :
      (ks : List Call) (s : Session)
      → UniqueIds s.db.messages
      → UniqueIds (perform_all d ks s).db.messages
  unfolding perform_all
  perform_all-UniqueIds [] s u = u
  perform_all-UniqueIds (k ∷ ks) s u =
      perform_all-UniqueIds ks (perform d k s) (perform-Onward k s u).unique

  -- The state machine of a message in the MySQL store, for the calls of any run: whatever methods are
  -- called before, with whatever arguments, and whatever becomes of their round trips and commits and of
  -- this call's, a call takes each message at most one step, that of its kind. Only Enqueue and
  -- EnqueueBatch insert it, as CREATED with attempt 0; only PurgeTerminal deletes it, if it is SUCCESS or
  -- DEAD. Otherwise it stays exactly as it is, or keeps its envelope and moves: Claim from CREATED or
  -- RETRYING to HANDLING with one attempt more; Succeed and BatchSucceed from HANDLING to SUCCESS; Fail
  -- from HANDLING to RETRYING or DEAD; ReleaseShutdown from HANDLING to RETRYING, or to CREATED if no
  -- attempt was made before, with one attempt less; Extend within HANDLING; Requeue from DEAD to CREATED
  -- with attempt 0; ReclaimExpired from HANDLING to RETRYING. The ids of the first table are unique.
  pub perform-Moved :
      (calls : List Call) (call : Call) (s : Session) (i : ℕ)
      → UniqueIds s.db.messages
      → let t = perform_all d calls s in
        Change Moved
          (kind_of call)
          (find_row i t.db.messages)
          (find_row i (perform d call t).db.messages)
  perform-Moved calls call s i u =
      (perform-Onward call (perform_all d calls s) (perform_all-UniqueIds calls s u)).change i
