-- ===== src/Postgres/Calls/Respects.antt =====
-- A preorder that every statement respects is respected by every method, whatever the wires do.
use tickr.Prelude.{ℕ, ◌<◌, String, List, Option, ℤ}
use tickr.Message.{Status, EnqueueParams}
use tickr.Postgres.Table.{Db}
use tickr.Postgres.Statements.{
  append_history_sql, enqueue_sql, claim_sql, succeed_sql, succeed_no_history_sql, fail_retry_sql,
  fail_dead_sql, fail_retry_no_history_sql, fail_dead_no_history_sql, release_sql,
  release_no_history_sql, extend_sql, requeue_sql, reclaim_sql, purge_sql, purge_history_sql,
}
use tickr.Postgres.Session.{Driver, Config, Action, round_trip, context, with_id}
use tickr.Postgres.Session.Within
use tickr.Postgres.Session.Within.{Within, pick_shard-db, pick_shard-lt, new_id-db}
use tickr.Postgres.Enqueue.{new_row}
use tickr.Postgres.Calls.{
  Kind, producing, claiming, succeeding, failing, releasing, extending, requeuing, reclaiming,
  purging,
}

-- The statements of the kinds that are `on`, and those that leave the messages.
pub record Respects (c : Config) (on : Kind → Type 0) (R : Db → Db → Type 0) : Type 0 where
  pub refl_R : (a : Db) → R a a
  pub trans_R : (x y z : Db) → R x y → R y z → R x z
  pub of_notify : (a : Db) (names : List String) → R a (record a { notified = names })
  pub of_enqueue :
      on producing
      → (now id shard : ℕ) (p : EnqueueParams) (a : Db) → shard < 16
      → R a (enqueue_sql c.partitioned (new_row now id shard p) a).1
  pub of_claim :
      on claiming
      → (now : ℕ) (types : Option (List String)) (batch : ℕ) (worker : String) (lease : ℤ)
        (shard : Option ℕ) (a : Db)
      → R a (claim_sql now types batch worker lease shard a).1
  pub of_append :
      (now i : ℕ) (from : Option Status) (to : Status) (attempt : ℕ) (error worker : String)
      (a : Db)
      → R a (append_history_sql now i from to attempt error worker a)
  pub of_succeed :
      on succeeding
      → (now i attempt : ℕ) (worker : String) (a : Db) → R a (succeed_sql now i attempt worker a)
  pub of_succeed_bare :
      on succeeding → (now i attempt : ℕ) (a : Db) → R a (succeed_no_history_sql now i attempt a)
  pub of_retry :
      on failing
      → (now i attempt : ℕ) (error : String) (next : ℕ) (worker : String) (a : Db)
      → R a (fail_retry_sql now i attempt error next worker a)
  pub of_retry_bare :
      on failing
      → (now i attempt : ℕ) (error : String) (next : ℕ) (a : Db)
      → R a (fail_retry_no_history_sql now i attempt error next a)
  pub of_dead :
      on failing
      → (now i attempt : ℕ) (error worker : String) (a : Db)
      → R a (fail_dead_sql now i attempt error worker a)
  pub of_dead_bare :
      on failing
      → (now i attempt : ℕ) (error : String) (a : Db)
      → R a (fail_dead_no_history_sql now i attempt error a)
  pub of_release :
      on releasing
      → (now i attempt : ℕ) (reason worker : String) (a : Db)
      → R a (release_sql now i attempt reason worker a)
  pub of_release_bare :
      on releasing
      → (now i attempt : ℕ) (reason : String) (a : Db)
      → R a (release_no_history_sql now i attempt reason a)
  pub of_extend :
      on extending
      → (now i : ℕ) (worker : String) (until : ℕ) (a : Db) → R a (extend_sql now i worker until a).1
  pub of_requeue : on requeuing → (now i next : ℕ) (a : Db) → R a (requeue_sql now i next a).1
  pub of_reclaim : on reclaiming → (now limit : ℕ) (a : Db) → R a (reclaim_sql now limit a).1
  pub of_purge : on purging → (before limit : ℕ) (a : Db) → R a (purge_sql before limit a).1
  pub of_purge_history : (before limit : ℕ) (a : Db) → R a (purge_history_sql before limit a).1

module _ (c : Config) (d : Driver) (R : Db → Db → Type 0) (on : Kind → Type 0)
    (h : Respects c on R) where
  pub trip :
      {A : Type 0} (what : String) (st : ℕ → Db → A × Db)
      → ((now : ℕ) (a : Db) → R a (st now a).1)
      → Within R (context what (round_trip st))
  trip what st k =
      Within.context-Within R h.refl_R h.trans_R what (round_trip st)
        (Within.round_trip-Within R h.refl_R h.trans_R st k)

  pub parsed :
      {A : Type 0} (what id : String) (run : ℕ → Action A)
      → ((i : ℕ) → Within R (run i))
      → Within R (with_id d what id run)
  parsed what id run k = Within.with_id-Within R h.refl_R h.trans_R d what id run k
