-- ===== src/Examples/Engine.antt =====
-- The theorems on the engine, at one worker on two messages.
use tickr.Prelude.{
  ℕ, String, List, [], ◌∷◌, Bool, true, false, none, some, ◌≡◌, refl, pos, All, arith, map,
  map_option, ◌+◌, ◌++◌,
}
use tickr.Errors.{
  Error, Format, text, is_skip, is_canceled, is_dead_letter, extract_retry_after, error_text,
}
use tickr.Message.{Status, InboundMessage, BatchSucceedParam}
use tickr.Registry.{
  Return, Handler, BatchHandler, Registration, Registry, RetryPolicy, default_config,
  with_max_batch_size,
}
use tickr.Postgres.Table.{Row, find_row}
use tickr.Postgres.Statements.{leased_to, lease_expired}
use tickr.Postgres.Session.{Session, scan_message}
use tickr.Postgres.Adapter.{adapter}
use tickr.Engine.{World, Engine, run_handler, recovered, batch_size_or_default, lease_or_default}
use tickr.Engine.Decision.Policy.{run_handler-after_verdict}
use tickr.Engine.Batch.{run_batch_handler}
use tickr.Engine.Batch.Acks.{Numbered, messages_of}
use tickr.Engine.Batch.Policy.{run_batch_handler-after_verdicts}
use tickr.Engine.Flusher.{Event, settle, ack_flusher, ack_flusher-Delivered, joined, FitsBatch}
use tickr.Engine.Dispatch.{Poll, jobs_for, run_waits}
use tickr.Engine.Dispatch.Laws.{tally_jobs, idle, run_waits-idle}
use tickr.Engine.Dispatch.Sorting.{IsJobOf, jobs_for-IsJobOf}
use tickr.Engine.Leases.{extend_loop}
use tickr.Engine.Leases.Kept.{reclaimed, is_held, extend_loop-is_held}
use tickr.Examples.{unary, plain, waiting, running, two_rows, session_at}

abbrev pub no_lock : String → Session → (Bool × Error) × Session
no_lock key s = ((true, none), s)

abbrev pub kept : String → Session → Session
kept key s = s

abbrev pub at_once : RetryPolicy
at_once r e = pos 0

abbrev pub printed : Format
printed = record { duration = λ d. "d"; quoted = λ s. s }

abbrev pub worker : Engine Session
worker = record {
  storage = adapter plain unary no_lock kept;
  worker_id = "w";
  batching = true;
  batch_size = pos 2;
  lease = pos 0;
  policy = at_once;
  format = printed;
}

abbrev pub quiet_world : {S : Type 0} → S → World S
quiet_world s = record { store = s; alerts = []; metrics = []; acks = [] }

abbrev failing : Handler
failing m = Return.panicked_value "boom"

run_handler-after_verdict_example :
    find_row 9
      (settle worker (
        run_handler worker false false
          (scan_message unary running)
          failing
          (default_config at_once)
          (quiet_world (session_at 60 [] two_rows)))).store.db.messages
    ≡ some (record running {
      status = Status.retrying;
      claimed_by = none;
      claimed_until = none;
      last_error = some "tickr: handler panic: boom";
      process_at = 60;
      updated_at = 60;
    })
unfolding scan_message find_row recovered is_skip is_canceled is_dead_letter default_config
    error_text extract_retry_after
run_handler-after_verdict_example =
    run_handler-after_verdict plain unary no_lock kept worker false false (default_config at_once)
      (scan_message unary running) (quiet_world (session_at 60 [] two_rows)) 9 failing 9 refl refl
      refl refl

abbrev sms : Registration
sms = record {
  handler = none;
  batch_handler = some (λ ms. Return.returned none);
  cfg = with_max_batch_size (pos 2) (default_config at_once);
}

abbrev sms_only : Registry
sms_only = ("sms", sms) ∷ []

abbrev message : String → InboundMessage
message t = record (scan_message unary waiting) { type_name = t }

abbrev three : List InboundMessage
three = message "sms" ∷ message "email" ∷ message "sms" ∷ []

jobs_for-IsJobOf_example :
    (tally_jobs (λ m. true) (jobs_for sms_only three) ≡ 3)
    × All (IsJobOf sms_only) (jobs_for sms_only three)
jobs_for-IsJobOf_example = jobs_for-IsJobOf sms_only (λ m. true) three

abbrev polls : List Poll
polls = record { claimed = 0; notified = false } ∷ record { claimed = 3; notified = true } ∷ []

run_waits-idle_example : run_waits (pos 100) (pos 500) (idle 4) ≡ 200 ∷ 400 ∷ 500 ∷ 500 ∷ []
run_waits-idle_example = run_waits-idle (pos 100) (pos 500) 4 (omega arith)

abbrev Log : Type 0
Log = List (List BatchSucceedParam)

abbrev refused : {A : Type 0} → A → Log → (A × Error) × Log
refused a log = ((a, none), log)

-- A storage that only takes batches.
abbrev recorder : Engine Log
recorder = record {
  storage = record {
    clock = λ s. 0;
    enqueue = λ p. refused none;
    enqueue_batch = λ ps. refused [];
    claim = λ p. refused [];
    succeed = λ id attempt w s. (none, s);
    fail = λ p s. (none, s);
    release_shutdown = λ id attempt w reason s. (none, s);
    extend = λ id w until. refused false;
    reclaim_expired = λ limit. refused 0;
    purge_terminal = λ before limit. refused 0;
    try_leader_lock = λ key. refused false;
    unlock = λ key s. s;
    batch_succeed = some (λ ps log. (some (text "down"), log ++ ps ∷ []));
    purge_history = none;
    notify = none;
  };
  worker_id = "w";
  batching = true;
  batch_size = pos 2;
  lease = pos 0;
  policy = at_once;
  format = printed;
}

abbrev ack : ℕ → BatchSucceedParam
ack n = record { message_id = unary.format n; attempt = 1; worker_id = "w" }

abbrev events : List Event
events = Event.posted (ack 1) ∷ Event.posted (ack 2) ∷ Event.ticked ∷ Event.posted (ack 3) ∷ []

ack_flusher-Delivered_example :
    (joined (ack_flusher recorder events [] (quiet_world [])).store ≡ ack 1 ∷ ack 2 ∷ ack 3 ∷ [])
    × All (FitsBatch 2) (ack_flusher recorder events [] (quiet_world [])).store
unfolding batch_size_or_default
ack_flusher-Delivered_example =
    ack_flusher-Delivered recorder (λ ps. some (text "down")) refl events [] (quiet_world [])
      (omega arith) tt

-- Two messages of one batch, the second of which has no attempt left.
abbrev second : Row
second = record running { id = 8; attempt = 3 }

abbrev pair : Numbered
pair = (9, scan_message unary running) ∷ (8, scan_message unary second) ∷ []

abbrev busy_world : World Session
busy_world =
    quiet_world (session_at 60 [] (record two_rows { messages = second ∷ two_rows.messages }))

abbrev refusing : BatchHandler
refusing ms = Return.returned (some (text "down"))

run_batch_handler-after_verdicts_example :
    (find_row 9
        (settle worker (
          run_batch_handler worker false false
            (messages_of pair)
            refusing
            (default_config at_once)
            busy_world)).store.db.messages
      ≡ some (record running {
        status = Status.retrying;
        claimed_by = none;
        claimed_until = none;
        last_error = some "down";
        process_at = 60;
        updated_at = 60;
      }))
    × (find_row 8
          (settle worker (
            run_batch_handler worker false false
              (messages_of pair)
              refusing
              (default_config at_once)
              busy_world)).store.db.messages
        ≡ some (record second {
          status = Status.dead;
          claimed_by = none;
          claimed_until = none;
          last_error = some "down";
          completed_at = some 60;
          updated_at = 60;
        }))
unfolding scan_message find_row recovered is_skip is_canceled is_dead_letter default_config
    error_text extract_retry_after
run_batch_handler-after_verdicts_example = (
  run_batch_handler-after_verdicts plain unary no_lock kept worker false false
      (default_config at_once) pair busy_world refusing 9 refl (refl, (refl, tt)) refl refl,
  run_batch_handler-after_verdicts plain unary no_lock kept worker false false
      (default_config at_once) pair busy_world refusing 8 refl (refl, (refl, tt)) refl refl,
)

-- A claim that is fresh at 60.
abbrev fresh : Row
fresh = record running { claimed_until = some 30_000_000_060 }

abbrev at_work : World Session
at_work = quiet_world (session_at 60 [] (record two_rows { messages = waiting ∷ fresh ∷ [] }))

-- The second tick comes at the last moment.
abbrev two_ticks : List (ℕ × ℕ)
two_ticks = (10_000_000_000, 5) ∷ (30_000_000_000, 1) ∷ []

extend_loop-is_held_example :
    ((extend_loop worker (scan_message unary fresh) (map reclaimed two_ticks) at_work).0 ≡ false)
    × ((extend_loop worker (scan_message unary fresh) (map reclaimed two_ticks) at_work).1.alerts
        ≡ [])
    × (map_option
          (is_held 9 2 "w" (
            (extend_loop worker
              (scan_message unary fresh)
              (map reclaimed two_ticks)
              at_work).1.store.now
            + 30_000_000_000))
          (find_row 9
            (extend_loop worker
              (scan_message unary fresh)
              (map reclaimed two_ticks)
              at_work).1.store.db.messages)
        ≡ some true)
unfolding scan_message find_row lease_or_default leased_to lease_expired
extend_loop-is_held_example =
    extend_loop-is_held plain unary no_lock kept 9 "w" worker (scan_message unary fresh) 2 refl refl
      refl two_ticks at_work fresh refl (refl, (refl, tt)) refl refl
      (omega arith, (omega arith, tt))
