-- ===== src/Message.antt =====
-- message.go and the parameter types of storage.go. Payloads are byte lists, header maps are
-- association lists, times are nanoseconds since Go's zero time, so that 0 is `time.Time{}`.
use tickr.Prelude.{ℕ, String, List, Bool, true, false, Option, ℤ}

pub data Status : Type 0 where
  created handling success failed retrying dead : Status

pub Status-discrete : Discrete Status
Status-discrete = hlevel

-- `Status.Terminal`
unfoldable pub terminal : Status → Bool
terminal success = true
terminal dead = true
terminal _ = false

-- What the caller supplies at enqueue time.
pub record Message : Type 0 where
  pub type_name : String
  pub payload : List ℕ
  pub headers : List (String × String)
  pub idempotency_key : String
  pub scheduled_at : ℕ
  pub max_attempts : ℤ

-- The read-side view of a message; `none` is a status that the storage has not filled in.
pub record InboundMessage : Type 0 where
  pub id : String
  pub type_name : String
  pub payload : List ℕ
  pub headers : List (String × String)
  pub idempotency_key : String
  pub attempt : ℕ
  pub max_attempts : ℤ
  pub enqueued_at : ℕ
  pub scheduled_at : ℕ
  pub last_error : String
  pub status : Option Status

-- One row of the history, as `History` returns it; `none` is the empty status, for NULL.
pub record Transition : Type 0 where
  pub message_id : String
  pub seq : ℕ
  pub from : Option Status
  pub to : Status
  pub attempt : ℕ
  pub error : String
  pub worker_id : String
  pub at : ℕ

pub data Outcome : Type 0 where
  success retry dead canceled : Outcome

pub record EnqueueParams : Type 0 where
  pub event_type : String
  pub payload : List ℕ
  pub headers : List (String × String)
  pub idempotency_key : String
  pub max_attempts : ℤ
  pub process_at : ℕ

pub record ClaimParams : Type 0 where
  pub worker_id : String
  pub batch : ℤ
  pub lease : ℤ
  pub event_types : List String

-- `fatal` is the field `Dead`.
pub record FailParams : Type 0 where
  pub message_id : String
  pub attempt : ℕ
  pub worker_id : String
  pub err : String
  pub next_retry_at : ℕ
  pub fatal : Bool

pub record BatchSucceedParam : Type 0 where
  pub message_id : String
  pub attempt : ℕ
  pub worker_id : String
