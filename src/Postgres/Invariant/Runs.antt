-- ===== src/Postgres/Invariant/Runs.antt =====
-- The invariant over whole runs of calls.
use tickr.Prelude.{List}
use tickr.Postgres.Table.{Db}
use tickr.Postgres.Statements.{
  succeed_sql, succeed_no_history_sql, fail_retry_sql, fail_dead_sql, fail_retry_no_history_sql,
  fail_dead_no_history_sql, release_sql, release_no_history_sql,
}
use tickr.Postgres.Session.{Driver, Session, Config}
use tickr.Postgres.Calls.{Call, perform_all}
use tickr.Postgres.Calls.Respects.{Respects}
use tickr.Postgres.Calls.Runs.{perform_all-Within}
use tickr.Postgres.Invariant.{Inv}
use tickr.Postgres.Invariant.History.{
  succeed_sql-entries, release_sql-entries, fail_retry_sql-entries, fail_dead_sql-entries,
}
use tickr.Postgres.Invariant.Statements.{
  claim_sql-Inv, reclaim_sql-Inv, purge_sql-Inv, purge_history_sql-Inv, append_history_sql-Inv,
  extend_sql-Inv, requeue_sql-Inv, enqueue_sql-Inv, succeed_rows-Inv, retry_rows-Inv, dead_rows-Inv,
  release_rows-Inv,
}

abbrev pub KeepsInv : Config → Db → Db → Type 0
KeepsInv c a b = Inv c a → Inv c b

Inv-Respects : (c : Config) → Respects c (λ k. Unit) (KeepsInv c)
unfolding succeed_sql succeed_no_history_sql fail_retry_sql fail_dead_sql fail_retry_no_history_sql
    fail_dead_no_history_sql release_sql release_no_history_sql
Inv-Respects c = record {
  refl_R = λ a v. v;
  trans_R = λ x y z p q v. q (p v);
  of_notify =
      λ a names v. record { ids = v.ids; rows = v.rows; keys = v.keys; entries = v.entries };
  of_enqueue = λ q now id shard p a lt v. enqueue_sql-Inv c a v now id shard p lt;
  of_claim = λ q now types batch worker lease shard a v.
      claim_sql-Inv c a v now types batch worker lease shard;
  of_append = λ now i from to attempt error worker a v.
      append_history_sql-Inv c a v now i from to attempt error worker;
  of_succeed = λ q now i attempt worker a v.
      succeed_rows-Inv c a v now i attempt _
        (succeed_sql-entries a v.entries now i attempt v.ids worker);
  of_succeed_bare = λ q now i attempt a v. succeed_rows-Inv c a v now i attempt a.history v.entries;
  of_retry = λ q now i attempt error next worker a v.
      retry_rows-Inv c a v now i attempt _
        (fail_retry_sql-entries a v.entries now i attempt v.ids error next worker) error next;
  of_retry_bare = λ q now i attempt error next a v.
      retry_rows-Inv c a v now i attempt a.history v.entries error next;
  of_dead = λ q now i attempt error worker a v.
      dead_rows-Inv c a v now i attempt _
        (fail_dead_sql-entries a v.entries now i attempt v.ids error worker) error;
  of_dead_bare =
      λ q now i attempt error a v. dead_rows-Inv c a v now i attempt a.history v.entries error;
  of_release = λ q now i attempt reason worker a v.
      release_rows-Inv c a v now i attempt _
        (release_sql-entries a v.entries now i attempt v.ids reason worker) reason;
  of_release_bare =
      λ q now i attempt reason a v. release_rows-Inv c a v now i attempt a.history v.entries reason;
  of_extend = λ q now i worker until a v. extend_sql-Inv c a v now i worker until;
  of_requeue = λ q now i next a v. requeue_sql-Inv c a v now i next;
  of_reclaim = λ q now limit a v. reclaim_sql-Inv c a v now limit;
  of_purge = λ q before limit a v. purge_sql-Inv c a v before limit;
  of_purge_history = λ before limit a v. purge_history_sql-Inv c a v before limit;
}

-- Every run of store methods, with whatever arguments and whatever becomes of the round trips,
-- keeps the invariant of the tables: unique message ids, well-formed rows, unique idempotency keys
-- (unless partitioned) and unique history numbers.
pub perform_all-Inv :
    (c : Config) (d : Driver) (calls : List Call) (s : Session)
    → Inv c s.db
    → Inv c (perform_all c d calls s).db
perform_all-Inv c d = perform_all-Within c d (KeepsInv c) (λ k. Unit) (Inv-Respects c) (λ k. tt)
