-- ===== src/Mysql/Ack.antt =====
-- storage/mysql/mysql.go: BatchSucceed, Succeed, Fail, ReleaseShutdown and Extend.
use tickr.Prelude.{ℕ, String, List, [], ◌∷◌, Bool, ltb, if◌then◌else◌}
use tickr.Errors.{Err, wrapped}
use tickr.Message.{Status, FailParams, BatchSucceedParam}
use tickr.Postgres.Table.{Db}
use tickr.Postgres.Statements.{holds}
use tickr.Postgres.Session.{Action, ◌>>=◌, ◌>>◌, pure, round_trip, context}
use tickr.Mysql.Session.{Ids, exec, transaction}
use tickr.Mysql.Statements.{
  held_by, extend_held_sql, succeed_row, dead_row, retry_row, release_row, update_sql,
}
use tickr.Mysql.Claim.{append_history}

-- The error of Commit, or of BeginTx, as it is.
abbrev pub bare : Err → Err
bare e = e

abbrev pub bare_commit : Unit {0} → Err → Err
bare_commit u e = e

-- An UPDATE of one message and its line in the history, which is written in any case.
unfoldable pub update_and_record :
    String → (ℕ → Db → Db) → ℕ → Status → ℕ → String → String → Action (Unit {0})
unfolding append_history
update_and_record what st i to attempt error worker =
    context what (exec st) >> append_history i Status.handling to attempt error worker

module _ (d : Ids) where
  unfoldable pub succeed_each : List BatchSucceedParam → Action (Unit {0})
  unfolding update_and_record
  succeed_each [] = pure tt
  succeed_each (p ∷ ps) =
      update_and_record "tickr/mysql: batch succeed update"
        (λ now. update_sql (holds (d.code p.message_id) p.attempt) (succeed_row now))
        (d.code p.message_id) Status.success p.attempt "" p.worker_id
      >> succeed_each ps

  -- BatchSucceed is fenced by the attempt.
  unfoldable pub batch_succeed : List BatchSucceedParam → Action (Unit {0})
  unfolding succeed_each transaction
  batch_succeed [] = pure tt
  batch_succeed (p ∷ ps) =
      transaction (wrapped "tickr/mysql: batch succeed begin") bare_commit (succeed_each (p ∷ ps))

  -- Succeed, Fail and ReleaseShutdown are fenced by the worker that holds the claim.
  unfoldable pub succeed : String → ℕ → String → Action (Unit {0})
  unfolding update_and_record transaction
  succeed id attempt worker = transaction (wrapped "tickr/mysql: succeed begin") bare_commit (
      update_and_record "tickr/mysql: succeed update"
        (λ now. update_sql (held_by d (d.code id) worker) (succeed_row now)) (d.code id)
        Status.success attempt "" worker)

  unfoldable pub fail_body : FailParams → Action (Unit {0})
  unfolding update_and_record
  fail_body p =
      let i = d.code p.message_id in
      if p.fatal
      then update_and_record "tickr/mysql: fail->dead"
          (λ now. update_sql (held_by d i p.worker_id) (dead_row now p.err)) i Status.dead p.attempt
          p.err p.worker_id
      else update_and_record "tickr/mysql: fail->retry"
          (λ now. update_sql (held_by d i p.worker_id) (retry_row now p.err p.next_retry_at)) i
          Status.retrying p.attempt p.err p.worker_id

  unfoldable pub fail : FailParams → Action (Unit {0})
  unfolding fail_body transaction
  fail p = transaction (wrapped "tickr/mysql: fail begin") bare_commit (fail_body p)

  -- The history says RETRYING whatever the status becomes.
  unfoldable pub release_shutdown : String → ℕ → String → String → Action (Unit {0})
  unfolding update_and_record transaction
  release_shutdown id attempt worker reason = transaction bare bare_commit (
      update_and_record "tickr/mysql: release-shutdown"
        (λ now. update_sql (held_by d (d.code id) worker) (release_row now)) (d.code id)
        Status.retrying attempt reason worker)

  unfoldable pub extend : String → String → ℕ → Action Bool
  extend id worker until = do
    affected ←
        context "tickr/mysql: extend"
          (round_trip (λ now. extend_held_sql d now (d.code id) worker until))
    pure (ltb 0 affected)
