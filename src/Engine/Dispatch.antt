-- ===== src/Engine/Dispatch.antt =====
-- engine.go: pollOnce, dispatchSingle and dispatchBatches, and the backoff of run. The handlers
-- that are started run beside the loop; here they are a list of jobs.
pub mod Laws
pub mod Sorting
use Prim.Native.String.{◌++◌ as str_append}
use tickr.Prelude.{
  ℕ, zero, suc, ◌+◌, ◌*◌, String, List, [], ◌∷◌, ◌++◌, map, Bool, true, false, Option, none, some,
  ℤ, pos, negsuc, ltb, leb, if◌then◌else◌, str_eq, length, take, drop, or_default, min,
}
use tickr.Errors.{Err, Error, Format, text}
use tickr.Message.{InboundMessage}
use tickr.Registry.{Registry, Registration, lookup, event_types}
use tickr.Storage.{ErrorKind, message_dead, claim_batch}
use tickr.Engine.{World, Engine, alert, count, batch_size_or_default, lease_or_default}

-- failNoHandler, runHandler and runBatchHandler. A registration that is missing is the zero one.
pub data Job : Type 0 where
  unhandled : InboundMessage → Job
  single : InboundMessage → Registration → Job
  batch : List InboundMessage → Option Registration → Job

-- `batchByType`, in the order in which its types came up.
abbrev pub Groups : Type 0
Groups = List (String × List InboundMessage)

unfoldable pub add_to_group : String → InboundMessage → Groups → Groups
add_to_group t m [] = (t, m ∷ []) ∷ []
add_to_group t m ((u, ms) ∷ gs) =
    let rest = add_to_group t m gs in if str_eq u t then (u, ms ++ m ∷ []) ∷ gs else (u, ms) ∷ rest

-- What the loop over the claimed messages has dispatched and grouped.
pub record Plan : Type 0 where
  pub jobs : List Job
  pub groups : Groups

abbrev pub sorted_by :
    Option (List InboundMessage → tickr.Registry.Return)
    → InboundMessage
    → Registration
    → Plan
    → Plan
sorted_by none m reg p = record p { jobs = p.jobs ++ single m reg ∷ [] }
sorted_by (some h) m reg p = record p { groups = add_to_group m.type_name m p.groups }

unfoldable pub plan_one : Option Registration → InboundMessage → Plan → Plan
plan_one none m p = record p { jobs = p.jobs ++ unhandled m ∷ [] }
plan_one (some reg) m p = sorted_by reg.batch_handler m reg p

unfoldable pub plan_all : Registry → List InboundMessage → Plan → Plan
plan_all r [] p = p
plan_all r (m ∷ ms) p = plan_all r ms (plan_one (lookup m.type_name r) m p)

-- The size of dispatchBatches' chunks of a group of `n` messages.
unfoldable pub chunk_size : ℤ → ℕ → ℕ
chunk_size (pos zero) n = n
chunk_size (pos (suc k)) n = if ltb n (suc k) then n else suc k
chunk_size (negsuc k) n = n

-- The loop of dispatchBatches on what is left; the fuel is the number of messages.
unfoldable pub chunk_loop : ℕ → ℕ → List InboundMessage → List (List InboundMessage)
chunk_loop zero size ms = []
chunk_loop (suc k) size [] = []
chunk_loop (suc k) size (m ∷ ms) = take size (m ∷ ms) ∷ chunk_loop k size (drop size (m ∷ ms))

abbrev pub max_batch_of : Option Registration → ℤ
max_batch_of none = pos 0
max_batch_of (some reg) = reg.cfg.max_batch_size

unfoldable pub dispatch_batches : List InboundMessage → Option Registration → List Job
dispatch_batches ms reg =
    map (λ chunk. batch chunk reg)
      (chunk_loop (length ms) (chunk_size (max_batch_of reg) (length ms)) ms)

unfoldable pub dispatch_groups : Registry → Groups → List Job
dispatch_groups r [] = []
dispatch_groups r ((t, ms) ∷ gs) = dispatch_batches ms (lookup t r) ++ dispatch_groups r gs

-- Everything that pollOnce dispatches for the claimed messages.
unfoldable pub jobs_for : Registry → List InboundMessage → List Job
jobs_for r ms =
    let p = plan_all r ms (record { jobs = []; groups = [] }) in
    p.jobs ++ dispatch_groups r p.groups

-- What the loop of `run` sees of a poll: the messages claimed, and whether a notification ended
-- the wait after it.
pub record Poll : Type 0 where
  pub claimed : ℕ
  pub notified : Bool

-- The delay of the wait after a poll.
unfoldable pub wait_after : ℕ → ℕ → ℕ → ℕ → ℕ
wait_after interval max_backoff current claimed =
    if ltb 0 claimed
    then interval
    else if ltb max_backoff (current * 2)
    then max_backoff
    else current * 2

-- The delays of the waits of `run`, one for each poll.
unfoldable pub waits : ℕ → ℕ → ℕ → List Poll → List ℕ
waits interval max_backoff current [] = []
waits interval max_backoff current (p ∷ ps) =
    let d = wait_after interval max_backoff current p.claimed in
    d ∷ waits interval max_backoff (if p.notified then interval else d) ps

-- The defaults of `run`.
unfoldable pub run_waits : ℤ → ℤ → List Poll → List ℕ
run_waits poll_interval poll_max_backoff =
    waits (or_default poll_interval 100_000_000) (or_default poll_max_backoff 2_000_000_000)
      (or_default poll_interval 100_000_000)

module _ {S : Type 0} (g : Engine S) where
  -- failNoHandler; an error of the storage is dropped.
  unfoldable pub fail_no_handler : InboundMessage → World S → World S
  fail_no_handler m w =
      let what = str_append "no handler registered for event type " (g.format.quoted m.type_name) in
      let w' = record w {
        store =
            (g.storage.fail
              (record {
                message_id = m.id;
                attempt = m.attempt;
                worker_id = g.worker_id;
                err = what;
                next_retry_at = 0;
                fatal = true;
              })
              w.store).1;
      } in
      alert g ErrorKind.no_handler m (text what) (count g (message_dead m.type_name) w')

  -- The jobs that are done in the loop itself.
  unfoldable pub refuse_all : List Job → World S → World S
  refuse_all [] w = w
  refuse_all (unhandled m ∷ js) w = refuse_all js (fail_no_handler m w)
  refuse_all (single m reg ∷ js) w = refuse_all js w
  refuse_all (batch ms reg ∷ js) w = refuse_all js w

  -- After the claim; an error is an alert without a message.
  unfoldable pub after_claim :
      Registry → List InboundMessage × Error → World S → (ℕ × List Job) × World S
  after_claim r (ms, some e) w = (
    (0, []),
    record w {
      alerts =
          w.alerts
          ++ record {
            kind = ErrorKind.claim;
            event_type = "";
            message_id = "";
            attempt = 0;
            err = e;
          }
            ∷ [];
    },
  )
  after_claim r (ms, none) w =
      let w' = count g (claim_batch (length ms) (batch_size_or_default g.batch_size)) w in
      ((length ms, jobs_for r ms), refuse_all (jobs_for r ms) w')

  unfoldable pub claim_for : Registry → List String → World S → (ℕ × List Job) × World S
  unfolding after_claim
  claim_for r [] w = ((0, []), w)
  claim_for r (t ∷ ts) w =
      let (reply, s) =
        g.storage.claim
          (record {
            worker_id = g.worker_id;
            batch = pos (batch_size_or_default g.batch_size);
            lease = pos (lease_or_default g.lease);
            event_types = t ∷ ts;
          })
          w.store in
      after_claim r reply (record w { store = s })

  -- The number of messages claimed, and the jobs; `stopping` is set by `drain`.
  unfoldable pub poll_once : Registry → Bool → World S → (ℕ × List Job) × World S
  unfolding claim_for
  poll_once r true w = ((0, []), w)
  poll_once r false w = claim_for r (event_types r) w
