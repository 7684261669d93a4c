-- ===== src/Postgres/Calls.antt =====
-- The methods of the Postgres store as calls that follow one another on a session.
pub mod Respects
pub mod Acks
pub mod Consumer
pub mod Producer
pub mod BatchProducer
pub mod Runs
use tickr.Prelude.{ℕ, ◌+◌, String, List, [], ◌∷◌, ℤ}
use tickr.Message.{EnqueueParams, ClaimParams, FailParams, BatchSucceedParam}
use tickr.Postgres.Session.{Driver, Session, Config, Wire}
use tickr.Postgres.Ack
use tickr.Postgres.Claim
use tickr.Postgres.Enqueue
use tickr.Postgres.EnqueueBatch
use tickr.Postgres.Admin

-- `sleep n` lets n nanoseconds pass.
pub data Call : Type 0 where
  enqueue : EnqueueParams → Call
  enqueue_batch : List EnqueueParams → Call
  claim : ClaimParams → Call
  succeed : String → ℕ → String → Call
  batch_succeed : List BatchSucceedParam → Call
  fail : FailParams → Call
  release_shutdown : String → ℕ → String → String → Call
  extend : String → String → ℕ → Call
  history : String → Call
  list_dead : String → ℕ → ℤ → Call
  requeue : String → ℕ → Call
  reclaim_expired : ℤ → Call
  purge_terminal : ℕ → ℤ → Call
  purge_history : ℕ → ℤ → Call
  notify : String → Call
  sleep : ℕ → Call

-- What a call may do to the messages.
pub data Kind : Type 0 where
  reading producing claiming succeeding failing releasing extending requeuing reclaiming purging :
      Kind

abbrev pub kind_of : Call → Kind
kind_of (enqueue p) = producing
kind_of (enqueue_batch ps) = producing
kind_of (claim p) = claiming
kind_of (succeed id attempt worker) = succeeding
kind_of (batch_succeed ps) = succeeding
kind_of (fail p) = failing
kind_of (release_shutdown id attempt worker reason) = releasing
kind_of (extend id worker until) = extending
kind_of (history id) = reading
kind_of (list_dead event_type after limit) = reading
kind_of (requeue id at) = requeuing
kind_of (reclaim_expired limit) = reclaiming
kind_of (purge_terminal before limit) = purging
kind_of (purge_history before limit) = reading
kind_of (notify event_type) = reading
kind_of (sleep n) = reading

module _ (c : Config) (d : Driver) where
  -- The session after a call; results are dropped.
  unfoldable pub perform : Call → Session → Session
  perform (enqueue p) s = (Enqueue.enqueue c d p s).1
  perform (enqueue_batch ps) s = (EnqueueBatch.enqueue_batch c d ps s).1
  perform (claim p) s = (Claim.claim d c p s).1
  perform (succeed id attempt worker) s = (Ack.succeed c d id attempt worker s).1
  perform (batch_succeed ps) s = (Ack.batch_succeed c d ps s).1
  perform (fail p) s = (Ack.fail c d p s).1
  perform (release_shutdown id attempt worker reason) s =
      (Ack.release_shutdown c d id attempt worker reason s).1
  perform (extend id worker until) s = (Ack.extend d id worker until s).1
  perform (history id) s = (Admin.history d id s).1
  perform (list_dead event_type after limit) s = (Admin.list_dead d event_type after limit s).1
  perform (requeue id at) s = (Admin.requeue d id at s).1
  perform (reclaim_expired limit) s = (Admin.reclaim_expired limit s).1
  perform (purge_terminal before limit) s = (Admin.purge_terminal before limit s).1
  perform (purge_history before limit) s = (Admin.purge_history before limit s).1
  perform (notify event_type) s = (Enqueue.notify event_type s).1
  perform (sleep n) s = record s { now = s.now + n }

  unfoldable pub perform_all : List Call → Session → Session
  unfolding perform
  perform_all [] s = s
  perform_all (k ∷ ks) s = perform_all ks (perform k s)
