-- ===== src/Engine/Slots/Amounts.antt =====
-- No step of the loop, of a handler or of a shutdown loses or doubles a message (engine.go).
use tickr.Prelude.{
  ℕ, ◌+◌, String, List, [], ◌∷◌, Bool, Option, none, some, ltb, ◌≡◌, refl, ap, arith, Bool-cases,
  inl, inr, ℤ,
}
use tickr.Message.{InboundMessage}
use tickr.Engine.Slots.{
  Piece, Stage, Slots, Event, take_nth, limit_of, is_limited, take_type_for, refuse_type_for,
  take_pool_for, refuse_pool_for, free_type_of, free_pool_of, leave_of, step,
}
use tickr.Engine.Slots.Counts.{one_if, total, total-append, total-take_nth}
use tickr.Engine.Slots.Soundness.{After}

module _ (p : InboundMessage → Bool) where
  -- How many messages pass the test.
  abbrev pub weigh : List InboundMessage → ℕ
  weigh ms = total (λ m. one_if (p m)) ms

  abbrev pub weigh_held : Option Piece → ℕ
  weigh_held none = 0
  weigh_held (some q) = weigh q.messages

  abbrev pub weigh_running : Piece × Stage → ℕ
  weigh_running x = weigh x.0.messages

  -- All messages of a state.
  abbrev pub amount : Slots → ℕ
  amount s =
      (total (λ q. weigh q.messages) s.pending + weigh_held s.held)
      + (total weigh_running s.running + (weigh s.finished + weigh s.returned))

  module _ (pool_size : ℕ) (limit : String → ℤ) where
    abbrev pub Same : Slots → Slots → Type 0
    Same s t = amount t ≡ amount s

    take_pool_for-amount :
        (h : Option Piece) (ps : List Piece) (s : Slots)
        → s.held ≡ h
        → s.pending ≡ ps
        → After (Same s) (take_pool_for pool_size limit h ps s)
    take_pool_for-amount (some q) ps s e f = tt
    take_pool_for-amount none [] s e f = tt
    take_pool_for-amount none (q ∷ ps) s e f = elim (Bool-cases (ltb s.pool pool_size)) [
      | inr z ↦ rw z tt
      | inl z ↦ rw z (omega (arith, ap weigh_held e, ap (total (λ q. weigh q.messages)) f))
    ]

    refuse_pool_for-amount :
        (h : Option Piece) (ps : List Piece) (s : Slots)
        → s.pending ≡ ps
        → After (Same s) (refuse_pool_for pool_size limit h ps s)
    refuse_pool_for-amount (some q) ps s f = tt
    refuse_pool_for-amount none [] s f = tt
    refuse_pool_for-amount none (q ∷ ps) s f = elim (Bool-cases s.ended) [
      | inr z ↦ rw z tt
      | inl z ↦ simp z (
          omega (
            arith,
            ap (total (λ q. weigh q.messages)) f,
            total-append (λ m. one_if (p m)) s.returned q.messages,
          ))
    ]

    take_type_for-amount :
        (h : Option Piece) (s : Slots)
        → s.held ≡ h
        → After (Same s) (take_type_for pool_size limit h s)
    take_type_for-amount none s e = tt
    take_type_for-amount (some q) s e =
        elim (Bool-cases (is_limited pool_size limit q.event_type)) [
          | inl l ↦ elim (Bool-cases (ltb (s.sems q.event_type) (limit_of (limit q.event_type)))) [
            | inr z ↦ rw (l, z) tt
            | inl z ↦ rw (l, z) (omega (arith, ap weigh_held e))
          ]
          | inr l ↦ rw l (omega (arith, ap weigh_held e))
        ]

    refuse_type_for-amount :
        (h : Option Piece) (s : Slots)
        → s.held ≡ h
        → After (Same s) (refuse_type_for pool_size limit h s)
    refuse_type_for-amount none s e = tt
    refuse_type_for-amount (some q) s e =
        elim (Bool-cases (is_limited pool_size limit q.event_type)) [
          | inr l ↦ rw l tt
          | inl l ↦ elim (Bool-cases s.ended) [
            | inr z ↦ rw (l, z) tt
            | inl z ↦
                simp (l, z)
                  (omega (
                    arith,
                    ap weigh_held e,
                    total-append (λ m. one_if (p m)) s.returned q.messages,
                  ))
          ]
        ]

    -- A handler that goes on keeps its messages, one that leaves has finished them.
    free_type_of-amount :
        (o : Option ((Piece × Stage) × List (Piece × Stage))) (n : ℕ) (s : Slots)
        → take_nth n s.running ≡ o
        → After (Same s) (free_type_of pool_size limit o s)
    free_type_of-amount none n s e = tt
    free_type_of-amount (some ((q, Stage.untyped), rest)) n s e = tt
    free_type_of-amount (some ((q, Stage.unpooled), rest)) n s e = tt
    free_type_of-amount (some ((q, Stage.working), rest)) n s e =
        omega (arith, total-take_nth weigh_running n s.running (q, Stage.working) rest e)

    free_pool_of-amount :
        (o : Option ((Piece × Stage) × List (Piece × Stage))) (n : ℕ) (s : Slots)
        → take_nth n s.running ≡ o
        → After (Same s) (free_pool_of pool_size limit o s)
    free_pool_of-amount none n s e = tt
    free_pool_of-amount (some ((q, Stage.working), rest)) n s e = tt
    free_pool_of-amount (some ((q, Stage.unpooled), rest)) n s e = tt
    free_pool_of-amount (some ((q, Stage.untyped), rest)) n s e =
        omega (arith, total-take_nth weigh_running n s.running (q, Stage.untyped) rest e)

    leave_of-amount :
        (o : Option ((Piece × Stage) × List (Piece × Stage))) (n : ℕ) (s : Slots)
        → take_nth n s.running ≡ o
        → After (Same s) (leave_of pool_size limit o s)
    leave_of-amount none n s e = tt
    leave_of-amount (some ((q, Stage.working), rest)) n s e = tt
    leave_of-amount (some ((q, Stage.untyped), rest)) n s e = tt
    leave_of-amount (some ((q, Stage.unpooled), rest)) n s e = omega (
      arith,
      total-take_nth weigh_running n s.running (q, Stage.unpooled) rest e,
      total-append (λ m. one_if (p m)) s.finished q.messages,
    )

    pub step-amount : (e : Event) (s : Slots) → After (Same s) (step pool_size limit e s)
    unfolding step
    step-amount Event.shutdown s = refl
    step-amount Event.take_pool s = take_pool_for-amount s.held s.pending s refl refl
    step-amount Event.refuse_pool s = refuse_pool_for-amount s.held s.pending s refl
    step-amount Event.take_type s = take_type_for-amount s.held s refl
    step-amount Event.refuse_type s = refuse_type_for-amount s.held s refl
    step-amount (Event.free_type n) s = free_type_of-amount (take_nth n s.running) n s refl
    step-amount (Event.free_pool n) s = free_pool_of-amount (take_nth n s.running) n s refl
    step-amount (Event.leave n) s = leave_of-amount (take_nth n s.running) n s refl
