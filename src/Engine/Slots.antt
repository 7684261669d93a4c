-- ===== src/Engine/Slots.antt =====
-- The slots of engine.go: dispatchSingle and dispatchBatches wait for a place in the pool and one of
-- the message's type, or give up at shutdown; handlers run beside them and free the places; drain
-- waits for all. The loop and the handlers are interleaved step by step.
pub mod Counts
pub mod Soundness
pub mod Amounts
pub mod Drain
use tickr.Prelude.{
  ℕ, zero, suc, ◌+◌, ◌-◌, String, List, [], ◌∷◌, ◌++◌, Bool, true, false, Option, none, some, ℤ,
  pos, negsuc, ltb, ◌==◌, if◌then◌else◌, str_eq,
}
use tickr.Message.{InboundMessage}

-- One job of the loop: a message, or a chunk of messages of one type.
pub record Piece : Type 0 where
  pub event_type : String
  pub messages : List InboundMessage

-- How far a handler that was started is: it runs or has returned; its place of the type is free
-- again; its place in the pool is free again.
pub data Stage : Type 0 where
  working untyped unpooled : Stage

-- `held` is the piece that has a place in the pool and waits for one of its type; `pool` and `sems`
-- are the filled places of globalPool and perTypeInflight; `ended` says that the context is done.
pub record Slots : Type 0 where
  pub pending : List Piece
  pub held : Option Piece
  pub running : List (Piece × Stage)
  pub pool : ℕ
  pub sems : String → ℕ
  pub inflight : ℕ
  pub returned : List InboundMessage
  pub finished : List InboundMessage
  pub ended : Bool

-- A step of the loop, or of the n-th handler.
pub data Event : Type 0 where
  shutdown take_pool refuse_pool take_type refuse_type : Event
  free_type free_pool leave : ℕ → Event

-- Before the loop has dispatched anything.
abbrev pub idle : List Piece → Slots
idle ps = record {
  pending = ps;
  held = none;
  running = [];
  pool = 0;
  sems = λ t. 0;
  inflight = 0;
  returned = [];
  finished = [];
  ended = false;
}

-- The rest keeps its order.
abbrev pub behind {ℓ} : {A : Type ℓ} → A → Option (A × List A) → Option (A × List A)
behind y none = none
behind y (some (z, zs)) = some (z, y ∷ zs)

unfoldable pub take_nth {ℓ} : {A : Type ℓ} → ℕ → List A → Option (A × List A)
take_nth n [] = none
take_nth zero (x ∷ xs) = some (x, xs)
take_nth (suc n) (x ∷ xs) = behind x (take_nth n xs)

-- `maxInflight`; zero is no limit.
abbrev pub limit_of : ℤ → ℕ
limit_of (pos n) = n
limit_of (negsuc n) = 0

abbrev pub adjust : String → ℕ → (String → ℕ) → String → ℕ
adjust t n sems u = if str_eq u t then n else sems u

-- `pool_size` places, and WithMaxInflight of each type.
module _ (pool_size : ℕ) (limit : String → ℤ) where
  abbrev pub is_limited : String → Bool
  is_limited t = ltb 0 (limit_of (limit t))

  -- The handler is started: inflight.Add(1) and go.
  abbrev started : Piece → Slots → Slots
  started p s = record s {
    held = none;
    running = (p, Stage.working) ∷ s.running;
    inflight = s.inflight + 1;
  }

  abbrev take_type_for : Option Piece → Slots → Option Slots
  take_type_for none s = none
  take_type_for (some p) s =
      if is_limited p.event_type
      then (if ltb (s.sems p.event_type) (limit_of (limit p.event_type))
          then some
              (started p (record s { sems = adjust p.event_type (s.sems p.event_type + 1) s.sems }))
          else none)
      else some (started p s)

  abbrev refuse_type_for : Option Piece → Slots → Option Slots
  refuse_type_for none s = none
  refuse_type_for (some p) s =
      if is_limited p.event_type
      then (if s.ended
          then some
              (record s { held = none; pool = s.pool - 1; returned = s.returned ++ p.messages })
          else none)
      else none

  abbrev take_pool_for : Option Piece → List Piece → Slots → Option Slots
  take_pool_for (some p) ps s = none
  take_pool_for none [] s = none
  take_pool_for none (p ∷ ps) s =
      if ltb s.pool pool_size
      then some (record s { pending = ps; held = some p; pool = s.pool + 1 })
      else none

  abbrev refuse_pool_for : Option Piece → List Piece → Slots → Option Slots
  refuse_pool_for (some p) ps s = none
  refuse_pool_for none [] s = none
  refuse_pool_for none (p ∷ ps) s =
      if s.ended
      then some (record s { pending = ps; returned = s.returned ++ p.messages })
      else none

  abbrev free_type_of : Option ((Piece × Stage) × List (Piece × Stage)) → Slots → Option Slots
  free_type_of (some ((p, Stage.working), rest)) s = some (record s {
    running = (p, Stage.untyped) ∷ rest;
    sems =
        if is_limited p.event_type
        then adjust p.event_type (s.sems p.event_type - 1) s.sems
        else s.sems;
  })
  free_type_of _ s = none

  abbrev free_pool_of : Option ((Piece × Stage) × List (Piece × Stage)) → Slots → Option Slots
  free_pool_of (some ((p, Stage.untyped), rest)) s =
      some (record s { running = (p, Stage.unpooled) ∷ rest; pool = s.pool - 1 })
  free_pool_of _ s = none

  abbrev leave_of : Option ((Piece × Stage) × List (Piece × Stage)) → Slots → Option Slots
  leave_of (some ((p, Stage.unpooled), rest)) s =
      some (record s {
        running = rest;
        inflight = s.inflight - 1;
        finished = s.finished ++ p.messages;
      })
  leave_of _ s = none

  -- The state after a step, `none` if the step has to wait.
  unfoldable pub step : Event → Slots → Option Slots
  unfolding take_nth
  step shutdown s = some (record s { ended = true })
  step take_pool s = take_pool_for s.held s.pending s
  step refuse_pool s = refuse_pool_for s.held s.pending s
  step take_type s = take_type_for s.held s
  step refuse_type s = refuse_type_for s.held s
  step (free_type n) s = free_type_of (take_nth n s.running) s
  step (free_pool n) s = free_pool_of (take_nth n s.running) s
  step (leave n) s = leave_of (take_nth n s.running) s

  abbrev then_run : (Slots → Option Slots) → Option Slots → Option Slots
  then_run f none = none
  then_run f (some s) = f s

  unfoldable pub run : List Event → Slots → Option Slots
  unfolding step
  run [] s = some s
  run (e ∷ es) s = then_run (λ s'. run es s') (step e s)
