-- ===== src/Engine/Dispatch/Sorting.antt =====
-- Each claimed message goes into a job of the right kind, in a chunk of its own type (engine.go).
use tickr.Prelude.{
  ℕ, zero, suc, String, List, [], ◌∷◌, map, Bool, true, false, Option, none, some, ◌≡◌, refl, sym,
  take, drop, length, All, All-append, is_some, str_eq, str_eq_iff, Bool-cases, inl, inr,
}
use tickr.Message.{InboundMessage}
use tickr.Registry.{BatchHandler, Registry, Registration, lookup}
use tickr.Engine.Dispatch.{
  Job, unhandled, single, batch, Groups, add_to_group, Plan, sorted_by, plan_one, plan_all,
  chunk_size, chunk_loop, max_batch_of, dispatch_batches, dispatch_groups, jobs_for,
}
use tickr.Engine.Dispatch.Laws.{tally, tally_jobs, jobs_for-tally}

abbrev pub takes_batches : Option Registration → Bool
takes_batches none = false
takes_batches (some reg) = is_some reg.batch_handler

abbrev pub AreOf : String → List InboundMessage → Type 0
AreOf t ms = All (λ m. m.type_name ≡ t) ms

-- The job fits what is registered: a message of an unknown type is refused, one with a handler of its
-- own is alone with its registration, and a batch is of one type, with that type's registration.
abbrev pub IsJobOf : Registry → Job → Type 0
IsJobOf r (unhandled m) = lookup m.type_name r ≡ none
IsJobOf r (single m reg) = (lookup m.type_name r ≡ some reg) × (reg.batch_handler ≡ none)
IsJobOf r (batch ms reg) =
    (t : String) × AreOf t ms × (lookup t r ≡ reg) × (takes_batches reg ≡ true)

module _ {A : Type 0} (P : A → Type 0) where
  All-taken : (n : ℕ) (xs : List A) → All P xs → All P (take n xs)
  All-taken zero xs h = tt
  All-taken (suc n) [] h = tt
  All-taken (suc n) (x ∷ xs) h = (h.0, All-taken n xs h.1)

  All-dropped : (n : ℕ) (xs : List A) → All P xs → All P (drop n xs)
  All-dropped zero xs h = h
  All-dropped (suc n) [] h = tt
  All-dropped (suc n) (x ∷ xs) h = All-dropped n xs h.1

module _ (r : Registry) where
  -- The groups are of one type each, which takes batches.
  abbrev IsGroupOf : String × List InboundMessage → Type 0
  IsGroupOf (t, ms) = AreOf t ms × (takes_batches (lookup t r) ≡ true)

  abbrev IsPlanOf : Plan → Type 0
  IsPlanOf q = All (IsJobOf r) q.jobs × All IsGroupOf q.groups

  add_to_group-IsGroupOf :
      (m : InboundMessage) (gs : Groups)
      → takes_batches (lookup m.type_name r) ≡ true
      → All IsGroupOf gs
      → All IsGroupOf (add_to_group m.type_name m gs)
  unfolding add_to_group
  add_to_group-IsGroupOf m [] b h = (((refl, tt), b), tt)
  add_to_group-IsGroupOf m ((u, ms) ∷ gs) b h = elim (Bool-cases (str_eq u m.type_name)) [
    | inl e ↦
        rw e
          ((All-append _ ms (m ∷ []) h.0.0 (sym ((str_eq_iff u m.type_name).0 e), tt), h.0.1), h.1)
    | inr e ↦ rw e (h.0, add_to_group-IsGroupOf m gs b h.1)
  ]

  sorted_by-IsPlanOf :
      (o : Option BatchHandler) (m : InboundMessage) (reg : Registration) (q : Plan)
      → reg.batch_handler ≡ o
      → lookup m.type_name r ≡ some reg
      → IsPlanOf q
      → IsPlanOf (sorted_by o m reg q)
  sorted_by-IsPlanOf none m reg q e l h =
      (All-append _ q.jobs (single m reg ∷ []) h.0 ((l, e), tt), h.1)
  sorted_by-IsPlanOf (some f) m reg q e l h =
      (h.0, add_to_group-IsGroupOf m q.groups (rw (l, e) refl) h.1)

  plan_one-IsPlanOf :
      (o : Option Registration) (m : InboundMessage) (q : Plan)
      → lookup m.type_name r ≡ o
      → IsPlanOf q
      → IsPlanOf (plan_one o m q)
  unfolding plan_one
  plan_one-IsPlanOf none m q l h = (All-append _ q.jobs (unhandled m ∷ []) h.0 (l, tt), h.1)
  plan_one-IsPlanOf (some reg) m q l h = sorted_by-IsPlanOf reg.batch_handler m reg q refl l h

  plan_all-IsPlanOf :
      (ms : List InboundMessage) (q : Plan) → IsPlanOf q → IsPlanOf (plan_all r ms q)
  unfolding plan_all
  plan_all-IsPlanOf [] q h = h
  plan_all-IsPlanOf (m ∷ ms) q h =
      plan_all-IsPlanOf ms (plan_one (lookup m.type_name r) m q)
        (plan_one-IsPlanOf (lookup m.type_name r) m q refl h)

  chunk_loop-IsJobOf :
      (k size : ℕ) (ms : List InboundMessage) (t : String)
      → AreOf t ms
      → takes_batches (lookup t r) ≡ true
      → All (IsJobOf r) (map (λ chunk. batch chunk (lookup t r)) (chunk_loop k size ms))
  unfolding chunk_loop
  chunk_loop-IsJobOf zero size ms t h b = tt
  chunk_loop-IsJobOf (suc k) size [] t h b = tt
  chunk_loop-IsJobOf (suc k) size (m ∷ ms) t h b = (
    (t, All-taken _ size (m ∷ ms) h, refl, b),
    chunk_loop-IsJobOf k size (drop size (m ∷ ms)) t (All-dropped _ size (m ∷ ms) h) b,
  )

  dispatch_groups-IsJobOf :
      (gs : Groups) → All IsGroupOf gs → All (IsJobOf r) (dispatch_groups r gs)
  unfolding dispatch_groups dispatch_batches
  dispatch_groups-IsJobOf [] h = tt
  dispatch_groups-IsJobOf ((t, ms) ∷ gs) h =
      All-append _ (dispatch_batches ms (lookup t r)) (dispatch_groups r gs)
        (chunk_loop-IsJobOf (length ms) (chunk_size (max_batch_of (lookup t r)) (length ms)) ms t
          h.0.0 h.0.1)
        (dispatch_groups-IsJobOf gs h.1)

  -- Every claimed message is dispatched exactly once, and in the right kind of job: for every test, the
  -- jobs of a poll hold as many messages that pass it as the claim gave; and a message goes to
  -- failNoHandler only if its type has no registration, into a job of its own only with its type's
  -- registration and if that has no batch handler, and into a batch only of messages of its own type,
  -- with that type's registration, which has a batch handler.
  pub jobs_for-IsJobOf :
      (p : InboundMessage → Bool) (ms : List InboundMessage)
      → (tally_jobs p (jobs_for r ms) ≡ tally p ms) × All (IsJobOf r) (jobs_for r ms)
  unfolding jobs_for
  jobs_for-IsJobOf p ms =
      let q = plan_all r ms (record { jobs = []; groups = [] }) in
      let h : IsPlanOf q = plan_all-IsPlanOf ms (record { jobs = []; groups = [] }) (tt, tt) in
      (
        jobs_for-tally p r ms,
        All-append _ q.jobs (dispatch_groups r q.groups) h.0 (dispatch_groups-IsJobOf q.groups h.1),
      )
