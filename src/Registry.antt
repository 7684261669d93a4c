-- ===== src/Registry.antt =====
-- registry.go, handler.go: event types with their handlers and options. The mutex makes each
-- method one step. A handler is what its call comes to on the messages it is given.
pub mod Laws
use tickr.Prelude.{
  ℕ, String, List, [], ◌∷◌, ◌++◌, map, Bool, true, false, Option, none, some, ℤ, pos, str_eq,
  is_some, if◌then◌else◌, ◌*◌,
}
use tickr.Errors.{Err, Error, text}
use tickr.Message.{InboundMessage}

-- A handler returns, panics with an error, or panics with another value, printed here.
pub data Return : Type 0 where
  returned : Error → Return
  panicked : Err → Return
  panicked_value : String → Return

abbrev pub Handler : Type 0
Handler = InboundMessage → Return

abbrev pub BatchHandler : Type 0
BatchHandler = List InboundMessage → Return

-- `NextDelay` of a RetryPolicy, in nanoseconds.
abbrev pub RetryPolicy : Type 0
RetryPolicy = ℕ → Err → ℤ

-- `none` in `retry` and `dead_letter_if` is nil.
pub record HandlerConfig : Type 0 where
  pub max_attempts : ℤ
  pub retry : Option RetryPolicy
  pub max_inflight : ℤ
  pub max_batch_size : ℤ
  pub attempt_timeout : ℤ
  pub dead_letter_if : Option (Err → Bool)

pub record Registration : Type 0 where
  pub handler : Option Handler
  pub batch_handler : Option BatchHandler
  pub cfg : HandlerConfig

abbrev pub HandlerOption : Type 0
HandlerOption = HandlerConfig → HandlerConfig

unfoldable pub with_max_attempts : ℤ → HandlerOption
with_max_attempts n c = record c { max_attempts = n }

unfoldable pub with_retry_policy : RetryPolicy → HandlerOption
with_retry_policy p c = record c { retry = some p }

unfoldable pub with_max_inflight : ℤ → HandlerOption
with_max_inflight n c = record c { max_inflight = n }

unfoldable pub with_attempt_timeout : ℤ → HandlerOption
with_attempt_timeout d c = record c { attempt_timeout = d }

unfoldable pub with_dead_letter_if : (Err → Bool) → HandlerOption
with_dead_letter_if p c = record c { dead_letter_if = some p }

unfoldable pub with_max_batch_size : ℤ → HandlerOption
with_max_batch_size n c = record c { max_batch_size = n }

-- The map from event types to registrations.
abbrev pub Registry : Type 0
Registry = List (String × Registration)

abbrev pub new_registry : Registry
new_registry = []

unfoldable pub lookup : String → Registry → Option Registration
lookup k [] = none
lookup k ((j, v) ∷ m) = if str_eq j k then some v else lookup k m

abbrev pub second : ℕ
second = 1_000_000_000

unfoldable pub default_config : RetryPolicy → HandlerConfig
default_config policy = record {
  max_attempts = pos 10;
  retry = some policy;
  max_inflight = pos 0;
  max_batch_size = pos 0;
  attempt_timeout = pos (30 * second);
  dead_letter_if = none;
}

unfoldable pub apply_options : List HandlerOption → HandlerConfig → HandlerConfig
apply_options [] c = c
apply_options (o ∷ os) c = apply_options os (o c)

-- `policy` is DefaultRetryPolicy().
module _ (policy : RetryPolicy) where
  unfoldable pub register : String → Registration → List HandlerOption → Registry → Error × Registry
  unfolding default_config apply_options
  register event_type reg options m =
      if str_eq event_type ""
      then (some (text "tickr: event type must be non-empty"), m)
      else if is_some (lookup event_type m)
      then (some (text "tickr: handler already registered for event type"), m)
      else (
        none,
        (event_type, record reg { cfg = apply_options options (default_config policy) }) ∷ m,
      )

  -- `On`; a nil handler is `none`. The registration's config is set by `register`.
  unfoldable pub on : String → Option Handler → List HandlerOption → Registry → Error × Registry
  unfolding register
  on event_type none options m = (some (text "tickr: handler must be non-nil"), m)
  on event_type (some h) options m =
      register event_type
        (record { handler = some h; batch_handler = none; cfg = default_config policy }) options m

  -- `OnBatch`
  unfoldable pub on_batch :
      String → Option BatchHandler → List HandlerOption → Registry → Error × Registry
  unfolding register
  on_batch event_type none options m = (some (text "tickr: batch handler must be non-nil"), m)
  on_batch event_type (some h) options m =
      register event_type
        (record { handler = none; batch_handler = some h; cfg = default_config policy }) options m

-- EventTypes; the order is unspecified in Go.
unfoldable pub event_types : Registry → List String
event_types = map (λ e. e.0)
