-- ===== src/Engine/Dispatch/Laws.antt =====
-- Every claimed message is dispatched, once, in chunks of the right size; and the poll loop's
-- delays (engine.go).
use tickr.Prelude.{
  ℕ, zero, suc, ◌+◌, ◌*◌, ◌≤◌, ◌<◌, String, List, [], ◌∷◌, ◌++◌, map, Bool, false, Option, none,
  some, ℤ, pos, negsuc, ltb, if◌then◌else◌, str_eq, length, take, drop, or_default, min, max, ◌≡◌,
  refl, ap, sym, subst, All, arith, take-append-drop, length-take, length-drop, Bool-cases, inl,
  inr,
}
use tickr.Message.{InboundMessage}
use tickr.Registry.{BatchHandler, Registry, Registration, lookup}
use tickr.Engine.Dispatch.{
  Job, unhandled, single, batch, Groups, add_to_group, Plan, sorted_by, plan_one, plan_all,
  chunk_size, chunk_loop, max_batch_of, dispatch_batches, dispatch_groups, jobs_for, Poll,
  wait_after, waits, run_waits,
}

-- The messages of a job, and of many.
abbrev pub messages_of : Job → List InboundMessage
messages_of (unhandled m) = m ∷ []
messages_of (single m reg) = m ∷ []
messages_of (batch ms reg) = ms

-- How many messages a test accepts.
abbrev pub tally : (InboundMessage → Bool) → List InboundMessage → ℕ
tally p [] = 0
tally p (m ∷ ms) = (if p m then 1 else 0) + tally p ms

abbrev pub tally_jobs : (InboundMessage → Bool) → List Job → ℕ
tally_jobs p [] = 0
tally_jobs p (j ∷ js) = tally p (messages_of j) + tally_jobs p js

chunk_size_pos : (z : ℤ) (n : ℕ) → 0 < n → 0 < chunk_size z n
unfolding chunk_size
chunk_size_pos (pos zero) n h = h
chunk_size_pos (pos (suc k)) n h = ground arith
chunk_size_pos (negsuc k) n h = h

module _ (p : InboundMessage → Bool) where
  abbrev tally_groups : Groups → ℕ
  tally_groups [] = 0
  tally_groups ((t, ms) ∷ gs) = tally p ms + tally_groups gs

  tally-append : (xs ys : List InboundMessage) → tally p (xs ++ ys) ≡ tally p xs + tally p ys
  tally-append [] ys = omega arith
  tally-append (x ∷ xs) ys = omega (arith, tally-append xs ys)

  tally_jobs-append :
      (xs ys : List Job) → tally_jobs p (xs ++ ys) ≡ tally_jobs p xs + tally_jobs p ys
  tally_jobs-append [] ys = omega arith
  tally_jobs-append (x ∷ xs) ys = omega (arith, tally_jobs-append xs ys)

  tally_groups-add :
      (t : String) (m : InboundMessage) (gs : Groups)
      → tally_groups (add_to_group t m gs) ≡ tally p (m ∷ []) + tally_groups gs
  unfolding add_to_group
  tally_groups-add t m [] = omega arith
  tally_groups-add t m ((u, ms) ∷ gs) = elim (Bool-cases (str_eq u t)) [
    | inl e ↦ rw e (omega (arith, tally-append ms (m ∷ [])))
    | inr e ↦ rw e (omega (arith, tally_groups-add t m gs))
  ]

  abbrev tally_plan : Plan → ℕ
  tally_plan q = tally_jobs p q.jobs + tally_groups q.groups

  sorted_by-tally :
      (o : Option BatchHandler) (m : InboundMessage) (reg : Registration) (q : Plan)
      → tally_plan (sorted_by o m reg q) ≡ tally p (m ∷ []) + tally_plan q
  sorted_by-tally none m reg q = omega (arith, tally_jobs-append q.jobs (single m reg ∷ []))
  sorted_by-tally (some h) m reg q = omega (arith, tally_groups-add m.type_name m q.groups)

  plan_one-tally :
      (o : Option Registration) (m : InboundMessage) (q : Plan)
      → tally_plan (plan_one o m q) ≡ tally p (m ∷ []) + tally_plan q
  unfolding plan_one
  plan_one-tally none m q = omega (arith, tally_jobs-append q.jobs (unhandled m ∷ []))
  plan_one-tally (some reg) m q = sorted_by-tally reg.batch_handler m reg q

  plan_all-tally :
      (r : Registry) (ms : List InboundMessage) (q : Plan)
      → tally_plan (plan_all r ms q) ≡ tally p ms + tally_plan q
  unfolding plan_all
  plan_all-tally r [] q = omega arith
  plan_all-tally r (m ∷ ms) q = omega (
    arith,
    plan_all-tally r ms (plan_one (lookup m.type_name r) m q),
    plan_one-tally (lookup m.type_name r) m q,
  )

  chunk_loop-tally :
      (k size : ℕ) (ms : List InboundMessage) (reg : Option Registration)
      → length ms ≤ k
      → 0 < size
      → tally_jobs p (map (λ chunk. batch chunk reg) (chunk_loop k size ms)) ≡ tally p ms
  unfolding chunk_loop
  chunk_loop-tally zero size [] reg h pos_size = omega arith
  chunk_loop-tally zero size (m ∷ ms) reg h pos_size = absurd (omega arith)
  chunk_loop-tally (suc k) size [] reg h pos_size = omega arith
  chunk_loop-tally (suc k) size (m ∷ ms) reg h pos_size =
      let rest = drop size (m ∷ ms) in
      omega (
        arith,
        chunk_loop-tally k size rest reg (omega (arith, length-drop size (m ∷ ms))) pos_size,
        tally-append (take size (m ∷ ms)) rest,
        ap (tally p) (take-append-drop size (m ∷ ms)),
      )

  dispatch_batches-tally :
      (ms : List InboundMessage) (reg : Option Registration)
      → tally_jobs p (dispatch_batches ms reg) ≡ tally p ms
  unfolding dispatch_batches chunk_loop
  dispatch_batches-tally [] reg = omega arith
  dispatch_batches-tally (m ∷ ms) reg =
      chunk_loop-tally (length (m ∷ ms)) _ (m ∷ ms) reg (omega arith)
        (chunk_size_pos (max_batch_of reg) (length (m ∷ ms)) (omega arith))

  dispatch_groups-tally :
      (r : Registry) (gs : Groups) → tally_jobs p (dispatch_groups r gs) ≡ tally_groups gs
  unfolding dispatch_groups
  dispatch_groups-tally r [] = omega arith
  dispatch_groups-tally r ((t, ms) ∷ gs) = omega (
    arith,
    tally_jobs-append (dispatch_batches ms (lookup t r)) (dispatch_groups r gs),
    dispatch_batches-tally ms (lookup t r),
    dispatch_groups-tally r gs,
  )

  -- Every claimed message is dispatched exactly once, by failNoHandler, in a job of its own or in a
  -- chunk of its type: for every test, the jobs of a poll hold as many messages that pass it as the
  -- claim gave.
  pub jobs_for-tally :
      (r : Registry) (ms : List InboundMessage) → tally_jobs p (jobs_for r ms) ≡ tally p ms
  unfolding jobs_for
  jobs_for-tally r ms =
      let q = plan_all r ms (record { jobs = []; groups = [] }) in
      omega (
        arith,
        tally_jobs-append q.jobs (dispatch_groups r q.groups),
        dispatch_groups-tally r q.groups,
        plan_all-tally r ms (record { jobs = []; groups = [] }),
      )

-- A chunk has a message, and at most `n`.
abbrev pub FitsChunk : ℕ → List InboundMessage → Type 0
FitsChunk n ms = (0 < length ms) × (length ms ≤ n)

chunk_loop-FitsChunk :
    (n k size : ℕ) (ms : List InboundMessage)
    → 0 < size
    → size ≤ n
    → All (FitsChunk n) (chunk_loop k size ms)
unfolding chunk_loop
chunk_loop-FitsChunk n zero size ms h small = tt
chunk_loop-FitsChunk n (suc k) size [] h small = tt
chunk_loop-FitsChunk n (suc k) size (m ∷ ms) h small = (
  (omega (arith, length-take size (m ∷ ms)), omega (arith, length-take size (m ∷ ms))),
  chunk_loop-FitsChunk n k size (drop size (m ∷ ms)) h small,
)

abbrev JobFits : ℕ → Job → Type 0
JobFits n (batch ms reg) = FitsChunk n ms
JobFits n _ = Unit

All-map_batch :
    (n : ℕ) (reg : Option Registration) (xs : List (List InboundMessage))
    → All (FitsChunk n) xs
    → All (JobFits n) (map (λ chunk. batch chunk reg) xs)
All-map_batch n reg [] h = tt
All-map_batch n reg (x ∷ xs) h = (h.0, All-map_batch n reg xs h.1)

chunk_size-le : (k n : ℕ) → 0 < k → chunk_size (pos k) n ≤ k
unfolding chunk_size
chunk_size-le zero n h = absurd (omega arith)
chunk_size-le (suc k) n h = ground arith

-- With WithMaxBatchSize(k), k > 0, each batch that dispatchBatches starts has between one and k
-- messages.
dispatch_batches-JobFits :
    (reg : Registration) (k : ℕ) (ms : List InboundMessage)
    → reg.cfg.max_batch_size ≡ pos k
    → 0 < k
    → All (JobFits k) (dispatch_batches ms (some reg))
unfolding dispatch_batches chunk_loop
dispatch_batches-JobFits reg k [] e h = tt
dispatch_batches-JobFits reg k (m ∷ ms) e h =
    let n = length (m ∷ ms) in
    All-map_batch k (some reg) (chunk_loop n (chunk_size reg.cfg.max_batch_size n) (m ∷ ms)) (
      chunk_loop-FitsChunk k n (chunk_size reg.cfg.max_batch_size n) (m ∷ ms)
        (chunk_size_pos reg.cfg.max_batch_size n (omega arith))
        (subst (λ z. chunk_size z n ≤ k) (sym e) (chunk_size-le k n h)))

abbrev Between : ℕ → ℕ → ℕ → Type 0
Between a b d = (min a b ≤ d) × (d ≤ max a b)

waits-Between :
    (a b current : ℕ) (ps : List Poll)
    → min a b ≤ current
    → All (Between a b) (waits a b current ps)
unfolding waits wait_after
waits-Between a b current [] h = tt
waits-Between a b current (p ∷ ps) h =
    let d = wait_after a b current p.claimed in
    let bounds : Between a b d = ground arith in
    (bounds, waits-Between a b (if p.notified then a else d) ps (ground arith))

-- Every wait of `run` lies between the poll interval and the longest backoff, in either order,
-- with the defaults of 100 ms and 2 s.
run_waits-Between :
    (poll_interval poll_max_backoff : ℤ) (ps : List Poll)
    → All
        (Between (or_default poll_interval 100_000_000) (or_default poll_max_backoff 2_000_000_000))
        (run_waits poll_interval poll_max_backoff ps)
unfolding run_waits
run_waits-Between poll_interval poll_max_backoff ps = waits-Between _ _ _ ps (omega arith)

-- Polls that claim nothing and are not notified.
abbrev pub idle : ℕ → List Poll
idle zero = []
idle (suc n) = record { claimed = 0; notified = false } ∷ idle n

-- `base`, doubled and capped again and again.
abbrev pub doubled : ℕ → ℕ → ℕ → List ℕ
doubled cap base zero = []
doubled cap base (suc n) = min cap (base * 2) ∷ doubled cap (base * 2) n

capped : (b c : ℕ) → (if ltb b (min b c * 2) then b else min b c * 2) ≡ min b (c * 2)
capped b c = ground arith

waits-idle : (a b c : ℕ) (n : ℕ) → waits a b (min b c) (idle n) ≡ doubled b c n
unfolding waits wait_after
waits-idle a b c zero = refl
waits-idle a b c (suc n) =
    rw (capped b c) (ap (λ ws. min b (c * 2) ∷ ws) (waits-idle a b (c * 2) n))

-- While nothing is claimed and nothing is notified, the waits of `run` double from the poll
-- interval on, up to the longest backoff; the interval is not above it.
pub run_waits-idle :
    (poll_interval poll_max_backoff : ℤ) (n : ℕ)
    → or_default poll_interval 100_000_000 ≤ or_default poll_max_backoff 2_000_000_000
    → run_waits poll_interval poll_max_backoff (idle n)
      ≡ doubled (or_default poll_max_backoff 2_000_000_000) (or_default poll_interval 100_000_000) n
unfolding run_waits
run_waits-idle poll_interval poll_max_backoff n h =
    let a = or_default poll_interval 100_000_000 in
    let b = or_default poll_max_backoff 2_000_000_000 in
    let start : min b a ≡ a = omega arith in
    subst (λ x. waits a b x (idle n) ≡ doubled b a n) start (waits-idle a b a n)
