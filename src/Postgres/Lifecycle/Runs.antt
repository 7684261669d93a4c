-- ===== src/Postgres/Lifecycle/Runs.antt =====
-- The state machine over whole runs of calls.
use tickr.Prelude.{ℕ, List, [], ◌∷◌, refl, subst, ◌≡◌}
use tickr.Postgres.Table.{Row, find_row}
use tickr.Postgres.Session.{Driver, Session, Config}
use tickr.Postgres.Statements.{append_history_sql, purge_history_sql}
use tickr.Postgres.Enqueue.{new_row}
use tickr.Postgres.Calls.{Call, Kind, kind_of, perform, perform_all}
use tickr.Postgres.Calls.Respects.{Respects}
use tickr.Postgres.Calls.Runs.{perform-Within}
use tickr.Postgres.Rows.{UniqueIds}
use tickr.Postgres.Lifecycle.{Moved, Moved-Moves, Change, Advance, Advance-refl, Advance-trans}
use tickr.Postgres.Lifecycle.Statements.{
  Onward, claim_sql-Onward, reclaim_sql-Onward, purge_sql-Onward, succeed_no_history_sql-Onward,
  succeed_sql-Onward, fail_retry_no_history_sql-Onward, fail_retry_sql-Onward,
  fail_dead_no_history_sql-Onward, fail_dead_sql-Onward, release_no_history_sql-Onward,
  release_sql-Onward, extend_sql-Onward, requeue_sql-Onward, enqueue_sql-Onward,
}

-- The equation of the kinds carries a step over.
by_kind : {j : Kind} (k : Kind) {a b : List Row} → j ≡ k → Advance Moved j a b → Advance Moved k a b
by_kind k {a} {b} q h = subst (λ x. Advance Moved x a b) q h

Onward-Respects : (c : Config) (k : Kind) → Respects c (λ j. j ≡ k) (Onward k)
unfolding new_row append_history_sql purge_history_sql
Onward-Respects c k = record {
  refl_R = λ a u. Advance-refl Moved k a.messages u;
  trans_R = λ x y z p q u. Advance-trans Moved Moved-Moves k (p u) (q (p u).unique);
  of_notify = λ a names u. Advance-refl Moved k a.messages u;
  of_enqueue = λ q now id shard p a lt u.
      by_kind k q (enqueue_sql-Onward c.partitioned (new_row now id shard p) a refl refl u);
  of_claim = λ q now types batch worker lease shard a u.
      by_kind k q (claim_sql-Onward now a types batch worker lease shard u);
  of_append = λ now i from to attempt error worker a u. Advance-refl Moved k a.messages u;
  of_succeed =
      λ q now i attempt worker a u. by_kind k q (succeed_sql-Onward now a i attempt worker u);
  of_succeed_bare =
      λ q now i attempt a u. by_kind k q (succeed_no_history_sql-Onward now a i attempt u);
  of_retry = λ q now i attempt error next worker a u.
      by_kind k q (fail_retry_sql-Onward now a i attempt error next worker u);
  of_retry_bare = λ q now i attempt error next a u.
      by_kind k q (fail_retry_no_history_sql-Onward now a i attempt error next u);
  of_dead = λ q now i attempt error worker a u.
      by_kind k q (fail_dead_sql-Onward now a i attempt error worker u);
  of_dead_bare = λ q now i attempt error a u.
      by_kind k q (fail_dead_no_history_sql-Onward now a i attempt error u);
  of_release = λ q now i attempt reason worker a u.
      by_kind k q (release_sql-Onward now a i attempt reason worker u);
  of_release_bare = λ q now i attempt reason a u.
      by_kind k q (release_no_history_sql-Onward now a i attempt reason u);
  of_extend = λ q now i worker until a u. by_kind k q (extend_sql-Onward now a i worker until u);
  of_requeue = λ q now i next a u. by_kind k q (requeue_sql-Onward now a i next u);
  of_reclaim = λ q now limit a u. by_kind k q (reclaim_sql-Onward now a limit u);
  of_purge = λ q before limit a u. by_kind k q (purge_sql-Onward before a before limit u);
  of_purge_history = λ before limit a u. Advance-refl Moved k a.messages u;
}

perform_all-UniqueIds :
    (c : Config) (d : Driver) (calls : List Call) (s : Session)
    → UniqueIds s.db.messages
    → UniqueIds (perform_all c d calls s).db.messages
unfolding perform_all
perform_all-UniqueIds c d [] s u = u
perform_all-UniqueIds c d (k ∷ ks) s u =
    perform_all-UniqueIds c d ks (perform c d k s)
      (perform-Within c d (Onward (kind_of k)) (λ j. j ≡ kind_of k) (Onward-Respects c (kind_of k))
        k refl s u).unique

-- The state machine of a message, for the calls of any run: whatever methods are called before, with
-- whatever arguments, and whatever becomes of their round trips and of this call's, a call takes each
-- message at most one step, that of its kind. Only Enqueue and EnqueueBatch insert it, as CREATED with
-- attempt 0; only PurgeTerminal deletes it, if it is SUCCESS or DEAD. Otherwise it stays exactly as it
-- is, or keeps its envelope and moves: Claim from CREATED or RETRYING to HANDLING with one attempt
-- more; Succeed and BatchSucceed from HANDLING to SUCCESS; Fail from HANDLING to RETRYING or DEAD;
-- ReleaseShutdown from HANDLING to RETRYING with one attempt less; Extend within HANDLING; Requeue from
-- DEAD to CREATED with attempt 0; ReclaimExpired from HANDLING to RETRYING. The ids of the first table
-- are unique.
pub perform-Change :
    (c : Config) (d : Driver) (calls : List Call) (call : Call) (s : Session) (i : ℕ)
    → UniqueIds s.db.messages
    → let t = perform_all c d calls s in
      Change Moved
        (kind_of call)
        (find_row i t.db.messages)
        (find_row i (perform c d call t).db.messages)
perform-Change c d calls call s i u =
    let t = perform_all c d calls s in
    (perform-Within c d (Onward (kind_of call)) (λ j. j ≡ kind_of call)
        (Onward-Respects c (kind_of call)) call refl t (perform_all-UniqueIds c d calls s u)).change
      i
