-- ===== src/Engine.antt =====
-- engine.go: what an attempt of a handler comes to, and how it is committed to the storage.
pub mod Decision
pub mod Flusher
pub mod Dispatch
pub mod Batch
pub mod Slots
pub mod Leases
use tickr.Prelude.{
  ℕ, ◌+◌, ◌*◌, String, List, [], ◌∷◌, ◌++◌, Bool, true, false, not, ◌&&◌, ◌||◌, Option, none, some,
  leb, if◌then◌else◌, ℤ, pos, or_default, add_time, is_some,
}
use tickr.Errors.{
  Err, Error, Format, text, wrapped, is_skip, is_canceled, is_dead_letter, extract_retry_after,
  error_text,
}
use tickr.Message.{Outcome, InboundMessage, FailParams, BatchSucceedParam}
use tickr.Registry.{
  Return, returned, panicked, panicked_value, Handler, RetryPolicy, HandlerConfig, Registration,
}
use tickr.Storage.{
  Storage, ErrorKind, ErrorEvent, Metric, message_dead, handler_started, handler_completed,
}

-- What the engine writes: the adapter's state, the alerts and metrics in order (the newest last),
-- and the acknowledgements that were sent to the flusher's channel.
pub record World (S : Type 0) : Type 0 where
  pub store : S
  pub alerts : List ErrorEvent
  pub metrics : List Metric
  pub acks : List BatchSucceedParam

-- `batching` says that the storage is a BatchAcker (`succeedCh` is made). `policy` is
-- DefaultRetryPolicy(), `format` the printing of errors.
pub record Engine (S : Type 0) : Type 0 where
  pub storage : Storage S
  pub worker_id : String
  pub batching : Bool
  pub batch_size : ℤ
  pub lease : ℤ
  pub policy : RetryPolicy
  pub format : Format

-- batchSizeOrDefault, leaseOrDefault
unfoldable pub batch_size_or_default : ℤ → ℕ
batch_size_or_default n = or_default n 100

unfoldable pub lease_or_default : ℤ → ℕ
lease_or_default d = or_default d 30_000_000_000

-- safeInvoke and safeInvokeBatch: a panic becomes an error.
unfoldable pub recovered : String → Return → Error
recovered prefix (returned e) = e
recovered prefix (panicked e) = some (wrapped prefix e)
recovered prefix (panicked_value v) = some (wrapped prefix (text v))

-- resolveOutcome; `ended` is `parentCtx.Err() != nil`.
unfoldable pub resolve_outcome : Bool → Bool → Error → Outcome
resolve_outcome ended stopping none = Outcome.success
resolve_outcome ended stopping (some e) =
    if is_skip e
    then Outcome.success
    else if is_canceled e && (ended && stopping)
    then Outcome.canceled
    else Outcome.retry

abbrev pub wants_dead : Option (Err → Bool) → Err → Bool
wants_dead none e = false
wants_dead (some pred) e = pred e

-- The attempts that a message may use: its own number, or the handler's.
abbrev pub is_positive : ℤ → Bool
is_positive (pos ℕ.zero) = false
is_positive (pos (ℕ.suc n)) = true
is_positive _ = false

abbrev pub at_least : ℕ → ℤ → Bool
at_least n (pos m) = leb m n
at_least n _ = true

unfoldable pub max_attempts_of : HandlerConfig → InboundMessage → ℤ
max_attempts_of cfg m = if is_positive m.max_attempts then m.max_attempts else cfg.max_attempts

-- Whether a failed attempt is the last one.
unfoldable pub is_last : HandlerConfig → InboundMessage → Err → Bool → Bool
unfolding max_attempts_of
is_last cfg m e dead =
    dead
    || (is_dead_letter e
        || (wants_dead cfg.dead_letter_if e || at_least m.attempt (max_attempts_of cfg m)))

abbrev pub or_policy : Option RetryPolicy → RetryPolicy → RetryPolicy
or_policy none p = p
or_policy (some q) p = q

abbrev pub or_delay : Option ℤ → ℤ → ℤ
or_delay none d = d
or_delay (some d) _ = d

-- The delay of a retry: that of RetryAfter, or the policy's.
unfoldable pub retry_delay : RetryPolicy → HandlerConfig → InboundMessage → Err → ℤ
retry_delay policy cfg m e =
    or_delay (extract_retry_after e) (or_policy cfg.retry policy m.attempt e)

module _ {S : Type 0} (g : Engine S) where
  abbrev pub alert : ErrorKind → InboundMessage → Err → World S → World S
  alert kind m e w = record w {
    alerts =
        w.alerts
        ++ record {
          kind = kind;
          event_type = m.type_name;
          message_id = m.id;
          attempt = m.attempt;
          err = e;
        }
          ∷ [];
  }

  abbrev pub count : Metric → World S → World S
  count x w = record w { metrics = w.metrics ++ x ∷ [] }

  -- An error of the storage is reported.
  abbrev pub report : InboundMessage → Error × S → World S → World S
  report m (none, s) w = record w { store = s }
  report m (some e, s) w = alert ErrorKind.storage m e (record w { store = s })

  abbrev pub ack_of : InboundMessage → BatchSucceedParam
  ack_of m = record { message_id = m.id; attempt = m.attempt; worker_id = g.worker_id }

  -- The FailParams of a failed attempt.
  unfoldable pub fail_params : ℕ → HandlerConfig → InboundMessage → Err → Bool → FailParams
  unfolding retry_delay
  fail_params now cfg m e dead = record {
    message_id = m.id;
    attempt = m.attempt;
    worker_id = g.worker_id;
    err = error_text g.format e;
    next_retry_at = if dead then 0 else add_time now (retry_delay g.policy cfg m e);
    fatal = dead;
  }

  -- The OutcomeRetry and OutcomeDead case of commitOutcome.
  unfoldable pub commit_failure : InboundMessage → HandlerConfig → Err → Bool → World S → World S
  unfolding fail_params is_last
  commit_failure m cfg e forced w =
      let dead = is_last cfg m e forced in
      let w' = if dead then count (message_dead m.type_name) w else w in
      let w'' =
        report m (g.storage.fail (fail_params (g.storage.clock w.store) cfg m e dead) w'.store)
          w' in
      alert (if dead then ErrorKind.dead_letter else ErrorKind.handler) m e w''

  -- commitOutcome. `err.Error()` on nil would panic; resolveOutcome never asks for that.
  unfoldable pub commit_outcome :
      InboundMessage → HandlerConfig → Error → Outcome → World S → World S
  unfolding commit_failure
  commit_outcome m cfg err Outcome.success w =
      if g.batching
      then record w { acks = w.acks ++ ack_of m ∷ [] }
      else report m (g.storage.succeed m.id m.attempt g.worker_id w.store) w
  commit_outcome m cfg err Outcome.canceled w =
      report m (g.storage.release_shutdown m.id m.attempt g.worker_id "worker shutdown" w.store) w
  commit_outcome m cfg (some e) Outcome.retry w = commit_failure m cfg e false w
  commit_outcome m cfg (some e) Outcome.dead w = commit_failure m cfg e true w
  commit_outcome m cfg none Outcome.retry w = w
  commit_outcome m cfg none Outcome.dead w = w

  -- runHandler, from the handler's return on. `ended` and `stopping` are what the shutdown
  -- has come to by then.
  unfoldable pub run_handler :
      Bool → Bool → InboundMessage → Handler → HandlerConfig → World S → World S
  unfolding recovered resolve_outcome commit_outcome
  run_handler ended stopping m h cfg w =
      let err = recovered "tickr: handler panic" (h m) in
      let outcome = resolve_outcome ended stopping err in
      commit_outcome m cfg err outcome (
        count (handler_completed m.type_name m.attempt outcome)
          (count (handler_started m.type_name m.attempt) w))
