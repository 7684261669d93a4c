-- ===== src/Postgres/Ack.antt =====
-- storage/postgres/postgres.go: BatchSucceed, Succeed, Fail, ReleaseShutdown and Extend.
use tickr.Prelude.{
  ℕ, String, List, [], ◌∷◌, Bool, ltb, length, if◌then◌else◌, cons_some, map_option,
}
use tickr.Message.{FailParams, BatchSucceedParam}
use tickr.Postgres.Table.{Db}
use tickr.Postgres.Statements.{
  succeed_sql, succeed_no_history_sql, fail_retry_sql, fail_dead_sql, fail_retry_no_history_sql,
  fail_dead_no_history_sql, release_sql, release_no_history_sql, extend_sql,
}
use tickr.Postgres.Session.{
  Driver, Config, Action, ◌>>=◌, pure, round_trip, context, with_id, send_batch,
}

-- A statement that returns nothing.
abbrev pub exec : (ℕ → Db → Db) → Action (Unit {0})
exec st = round_trip (λ now db. (tt, st now db))

module _ (c : Config) (d : Driver) where
  -- The statement that acknowledges one message.
  unfoldable pub succeed_statement : ℕ → ℕ → String → ℕ → Db → Db
  succeed_statement i attempt worker now db =
      if c.history_off
      then succeed_no_history_sql now i attempt db
      else succeed_sql now i attempt worker db

  unfoldable pub succeed : String → ℕ → String → Action (Unit {0})
  unfolding succeed_statement
  succeed id attempt worker =
      with_id d "tickr/postgres: succeed: bad id" id
        λ i. context "tickr/postgres: succeed" (exec (succeed_statement i attempt worker))

  -- The params whose id parses; the others are skipped.
  unfoldable pub queue_params : List BatchSucceedParam → List (ℕ × ℕ × String)
  queue_params [] = []
  queue_params (p ∷ ps) =
      cons_some (map_option (λ i. (i, p.attempt, p.worker_id)) (d.parse p.message_id))
        (queue_params ps)

  unfoldable pub succeed_each : List (ℕ × ℕ × String) → ℕ → Db → Db
  succeed_each [] now db = db
  succeed_each ((i, attempt, worker) ∷ rest) now db =
      succeed_each rest now (succeed_statement i attempt worker now db)

  unfoldable pub batch_succeed : List BatchSucceedParam → Action (Unit {0})
  batch_succeed [] = pure tt
  batch_succeed (p ∷ ps) = context "tickr/postgres: batch succeed" (
      send_batch d (length (queue_params (p ∷ ps))) (length (p ∷ ps))
        (succeed_each (queue_params (p ∷ ps))))

  -- The statement that records one failure.
  unfoldable pub fail_statement : ℕ → FailParams → ℕ → Db → Db
  fail_statement i p now db =
      if c.history_off
      then (if p.fatal
          then fail_dead_no_history_sql now i p.attempt p.err db
          else fail_retry_no_history_sql now i p.attempt p.err p.next_retry_at db)
      else (if p.fatal
          then fail_dead_sql now i p.attempt p.err p.worker_id db
          else fail_retry_sql now i p.attempt p.err p.next_retry_at p.worker_id db)

  unfoldable pub fail : FailParams → Action (Unit {0})
  fail p =
      with_id d "tickr/postgres: fail: bad id" p.message_id
        λ i. context "tickr/postgres: fail" (exec (fail_statement i p))

  unfoldable pub release_statement : ℕ → ℕ → String → String → ℕ → Db → Db
  release_statement i attempt worker reason now db =
      if c.history_off
      then release_no_history_sql now i attempt reason db
      else release_sql now i attempt reason worker db

  unfoldable pub release_shutdown : String → ℕ → String → String → Action (Unit {0})
  release_shutdown id attempt worker reason =
      with_id d "tickr/postgres: release: bad id" id
        λ i. context "tickr/postgres: release" (exec (release_statement i attempt worker reason))

-- Whether the lease is still held: some row was affected.
unfoldable pub extend : Driver → String → String → ℕ → Action Bool
extend d id worker until = with_id d "tickr/postgres: extend: bad id" id λ i. do
  affected ← context "tickr/postgres: extend" (round_trip (λ now. extend_sql now i worker until))
  pure (ltb 0 affected)
