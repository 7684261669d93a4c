-- ===== src/Storage.antt =====
-- storage.go, notifier.go: the interface between the engine, the worker, the client and a storage
-- adapter, as operations on the adapter's state `S`; and observe.go's events.
use tickr.Prelude.{ℕ, String, List, Bool, Option}
use tickr.Errors.{Err, Error}
use tickr.Message.{
  InboundMessage, EnqueueParams, ClaimParams, FailParams, BatchSucceedParam, Outcome,
}

-- `batch_succeed`, `purge_history` and `notify` are the optional extensions BatchAcker,
-- HistoryPurger and Notifier; `none` is an adapter without it. `clock` is `time.Now()`.
pub record Storage (S : Type 0) : Type 0 where
  pub clock : S → ℕ
  pub enqueue : EnqueueParams → S → (Option InboundMessage × Error) × S
  pub enqueue_batch : List EnqueueParams → S → (List (Option InboundMessage) × Error) × S
  pub claim : ClaimParams → S → (List InboundMessage × Error) × S
  pub succeed : String → ℕ → String → S → Error × S
  pub fail : FailParams → S → Error × S
  pub release_shutdown : String → ℕ → String → String → S → Error × S
  pub extend : String → String → ℕ → S → (Bool × Error) × S
  pub reclaim_expired : ℕ → S → (ℕ × Error) × S
  pub purge_terminal : ℕ → ℕ → S → (ℕ × Error) × S
  pub try_leader_lock : String → S → (Bool × Error) × S
  pub unlock : String → S → S
  pub batch_succeed : Option (List BatchSucceedParam → S → Error × S)
  pub purge_history : Option (ℕ → ℕ → S → (ℕ × Error) × S)
  pub notify : Option (String → S → Error × S)

pub data ErrorKind : Type 0 where
  handler dead_letter no_handler claim storage lease janitor reclaimer : ErrorKind

-- ErrorEvent; the empty texts and 0 stand for fields that are not set.
pub record ErrorEvent : Type 0 where
  pub kind : ErrorKind
  pub event_type : String
  pub message_id : String
  pub attempt : ℕ
  pub err : Err

-- A call of the Metrics interface.
pub data Metric : Type 0 where
  message_enqueued : String → Metric
  handler_started : String → ℕ → Metric
  handler_completed : String → ℕ → Outcome → Metric
  message_dead : String → Metric
  claim_batch : ℕ → ℕ → Metric
  lease_reclaimed : ℕ → Metric
