-- ===== src/Postgres/Calls/Acks.antt =====
-- The acknowledging methods stay within a respected preorder.
use tickr.Prelude.{ℕ, String, List, [], ◌∷◌, ltb, length, inl, inr, Bool-cases}
use tickr.Message.{FailParams, BatchSucceedParam}
use tickr.Postgres.Table.{Db}
use tickr.Postgres.Session.{Driver, Config, context}
use tickr.Postgres.Session.Within
use tickr.Postgres.Session.Within.{Within, pick_shard-db, pick_shard-lt, new_id-db}
use tickr.Postgres.Ack
use tickr.Postgres.Calls.{Kind, succeeding, failing, releasing, extending}
use tickr.Postgres.Calls.Respects.{Respects, trip, parsed}

module _ (c : Config) (d : Driver) (R : Db → Db → Type 0) (on : Kind → Type 0)
    (h : Respects c on R) where
  of_succeed_statement :
      on succeeding
      → (i attempt : ℕ) (worker : String) (now : ℕ) (a : Db)
      → R a (Ack.succeed_statement c d i attempt worker now a)
  unfolding Ack.succeed_statement
  of_succeed_statement q i attempt worker now a = elim (Bool-cases c.history_off) [
    | inl e ↦ rw e (h.of_succeed_bare q now i attempt a)
    | inr e ↦ rw e (h.of_succeed q now i attempt worker a)
  ]

  pub succeed-Within :
      on succeeding
      → (id : String) (attempt : ℕ) (worker : String) → Within R (Ack.succeed c d id attempt worker)
  unfolding Ack.succeed
  succeed-Within q id attempt worker =
      parsed c d R on h _ id _ (λ i. trip c d R on h _ _ (of_succeed_statement q i attempt worker))

  of_succeed_each :
      on succeeding
      → (qs : List (ℕ × ℕ × String)) (now : ℕ) (a : Db) → R a (Ack.succeed_each c d qs now a)
  unfolding Ack.succeed_each
  of_succeed_each q [] now a = h.refl_R a
  of_succeed_each q ((i, attempt, worker) ∷ qs) now a =
      h.trans_R a (Ack.succeed_statement c d i attempt worker now a) _
        (of_succeed_statement q i attempt worker now a) (of_succeed_each q qs now _)

  pub batch_succeed-Within :
      on succeeding → (ps : List BatchSucceedParam) → Within R (Ack.batch_succeed c d ps)
  unfolding Ack.batch_succeed context
  batch_succeed-Within q [] s = h.refl_R s.db
  batch_succeed-Within q (p ∷ ps) s =
      Within.send_batch-Within R h.refl_R h.trans_R d (length (Ack.queue_params c d (p ∷ ps)))
        (length (p ∷ ps)) _ (of_succeed_each q (Ack.queue_params c d (p ∷ ps))) s

  of_fail_statement :
      on failing
      → (i : ℕ) (p : FailParams) (now : ℕ) (a : Db) → R a (Ack.fail_statement c d i p now a)
  unfolding Ack.fail_statement
  of_fail_statement q i p now a = elim (Bool-cases c.history_off) [
    | inl e ↦ elim (Bool-cases p.fatal) [
      | inl f ↦ rw (e, f) (h.of_dead_bare q now i p.attempt p.err a)
      | inr f ↦ rw (e, f) (h.of_retry_bare q now i p.attempt p.err p.next_retry_at a)
    ]
    | inr e ↦ elim (Bool-cases p.fatal) [
      | inl f ↦ rw (e, f) (h.of_dead q now i p.attempt p.err p.worker_id a)
      | inr f ↦ rw (e, f) (h.of_retry q now i p.attempt p.err p.next_retry_at p.worker_id a)
    ]
  ]

  pub fail-Within : on failing → (p : FailParams) → Within R (Ack.fail c d p)
  unfolding Ack.fail
  fail-Within q p =
      parsed c d R on h _ p.message_id _ (λ i. trip c d R on h _ _ (of_fail_statement q i p))

  of_release_statement :
      on releasing
      → (i attempt : ℕ) (worker reason : String) (now : ℕ) (a : Db)
      → R a (Ack.release_statement c d i attempt worker reason now a)
  unfolding Ack.release_statement
  of_release_statement q i attempt worker reason now a = elim (Bool-cases c.history_off) [
    | inl e ↦ rw e (h.of_release_bare q now i attempt reason a)
    | inr e ↦ rw e (h.of_release q now i attempt reason worker a)
  ]

  pub release_shutdown-Within :
      on releasing
      → (id : String) (attempt : ℕ) (worker reason : String)
      → Within R (Ack.release_shutdown c d id attempt worker reason)
  unfolding Ack.release_shutdown
  release_shutdown-Within q id attempt worker reason =
      parsed c d R on h _ id _
        (λ i. trip c d R on h _ _ (of_release_statement q i attempt worker reason))

  pub extend-Within :
      on extending → (id worker : String) (until : ℕ) → Within R (Ack.extend d id worker until)
  unfolding Ack.extend
  extend-Within q id worker until = parsed c d R on h _ id _ (λ i.
      Within.bind-Within R h.refl_R h.trans_R _ _
        (trip c d R on h _ _ (λ now. h.of_extend q now i worker until))
        (λ n. Within.pure-Within R h.refl_R h.trans_R (ltb 0 n)))
