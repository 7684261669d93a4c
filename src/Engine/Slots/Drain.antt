-- ===== src/Engine/Slots/Drain.antt =====
-- What is true when drain returns, and that it can be reached (engine.go).
use tickr.Prelude.{
  ℕ, ◌<◌, String, List, [], ◌∷◌, ◌++◌, Bool, true, false, Option, none, some, ltb, is_some, ◌≡◌,
  ◌⊎◌, refl, sym, subst, ap, arith, Bool-cases, inl, inr, ℤ,
}
use tickr.Message.{InboundMessage}
use tickr.Engine.Slots.{
  Piece, Stage, Slots, Event, idle, take_nth, limit_of, is_limited, take_type_for, take_pool_for,
  step, run, free_type_of, free_pool_of, leave_of,
}
use tickr.Engine.Slots.Counts.{one_if, total, total-append, pooled, typed, held_number}
use tickr.Engine.Slots.Soundness.{After, IsSound, run-After, run-IsSound}
use tickr.Engine.Slots.Amounts.{weigh, weigh_held, weigh_running, amount, Same, step-amount}

After-some : (P : Slots → Type 0) (o : Option Slots) (s : Slots) → o ≡ some s → After P o → P s
After-some P o s e h = subst (After P) e h

-- The loop has nothing left, and the wait group is at zero.
pub record IsDrained (s : Slots) : Type 0 where
  pub none_pending : s.pending ≡ []
  pub none_held : s.held ≡ none
  pub none_inflight : s.inflight ≡ 0

no_running : (xs : List (Piece × Stage)) → total (λ x. 1) xs ≡ 0 → xs ≡ []
no_running [] h = refl
no_running (x ∷ xs) h = absurd (omega arith)

module _ (pool_size : ℕ) (limit : String → ℤ) where
  carry :
      (p : InboundMessage → Bool) (n : ℕ) (t : Slots) (o : Option Slots)
      → amount p t ≡ n
      → After (Same p pool_size limit t) o
      → After (λ u. amount p u ≡ n) o
  carry p n t none h k = tt
  carry p n t (some u) h k = omega (arith, h, k)

  amount-idle :
      (p : InboundMessage → Bool) (es : List Event) (ps : List Piece) (s : Slots)
      → run pool_size limit es (idle ps) ≡ some s
      → amount p s ≡ amount p (idle ps)
  amount-idle p es ps s e =
      After-some (λ t. amount p t ≡ amount p (idle ps)) (run pool_size limit es (idle ps)) s e
        (run-After pool_size limit (λ t. amount p t ≡ amount p (idle ps))
          (λ x t h.
            carry p (amount p (idle ps)) t (step pool_size limit x t) h
              (step-amount p pool_size limit x t))
          es (idle ps) refl)

  -- When the loop has dispatched everything and drain's wait for the handlers is over, no handler is
  -- running, and every message of the claimed pieces has either been through its handler to the end
  -- or been given back by ReleaseShutdown, exactly once: for every test, as many messages that pass
  -- it are finished or returned as there were in the pieces. So under every interleaving of the
  -- loop, the handlers and a shutdown.
  pub run_drained :
      (es : List Event) (ps : List Piece) (s : Slots) (p : InboundMessage → Bool)
      → run pool_size limit es (idle ps) ≡ some s
      → IsDrained s
      → (s.running ≡ []) × (weigh p (s.finished ++ s.returned) ≡ total (λ q. weigh p q.messages) ps)
  run_drained es ps s p e drained =
      let sound : IsSound pool_size limit s =
        After-some (IsSound pool_size limit) (run pool_size limit es (idle ps)) s e
          (run-IsSound pool_size limit es ps) in
      let over = no_running s.running (omega (arith, sound.counted, drained.none_inflight)) in
      (
        over,
        omega (
          arith,
          amount-idle p es ps s e,
          total-append (λ m. one_if (p m)) s.finished s.returned,
          ap (total (λ q. weigh p q.messages)) drained.none_pending,
          ap (weigh_held p) drained.none_held,
          ap (total (weigh_running p)) over,
        ),
      )

  -- A step of the loop that takes a place, or of a handler.
  abbrev pub is_work : Event → Bool
  is_work Event.shutdown = false
  is_work Event.refuse_pool = false
  is_work Event.refuse_type = false
  is_work _ = true

  abbrev pub Works : Slots → Type 0
  Works s = (e : Event) × (t : Slots) × (is_work e ≡ true) × (step pool_size limit e s ≡ some t)

  -- A handler never waits to put its places back.
  handler-Works :
      (s : Slots) (x : Piece × Stage) (xs : List (Piece × Stage)) → s.running ≡ x ∷ xs → Works s
  unfolding step take_nth
  handler-Works s (p, Stage.working) xs q =
      (Event.free_type 0, _, refl, ap (λ rs. free_type_of pool_size limit (take_nth 0 rs) s) q)
  handler-Works s (p, Stage.untyped) xs q =
      (Event.free_pool 0, _, refl, ap (λ rs. free_pool_of pool_size limit (take_nth 0 rs) s) q)
  handler-Works s (p, Stage.unpooled) xs q =
      (Event.leave 0, _, refl, ap (λ rs. leave_of pool_size limit (take_nth 0 rs) s) q)

  Works-if :
      (e : Event) (s : Slots) (o : Option Slots)
      → is_work e ≡ true
      → step pool_size limit e s ≡ o
      → is_some o ≡ true
      → Works s
  Works-if e s none w q h = absurd (ground arith)
  Works-if e s (some t) w q h = (e, t, w, q)

  -- Without handlers there is room for the type, and in the pool.
  held-Works :
      (s : Slots) (p : Piece)
      → IsSound pool_size limit s
      → s.running ≡ []
      → s.held ≡ some p
      → Works s
  unfolding step
  held-Works s p k over q = Works-if Event.take_type s _ refl refl (
      subst (λ h. is_some (take_type_for pool_size limit h s) ≡ true) (sym q)
        (elim (Bool-cases (is_limited pool_size limit p.event_type)) [
          | inr l ↦ rw l refl
          | inl l ↦
              (let free : ltb (s.sems p.event_type) (limit_of (limit p.event_type)) ≡ true =
                  ground (
                    arith,
                    l,
                    k.sems_filled p.event_type l,
                    ap (total (typed p.event_type)) over,
                  ) in
                rw (l, free) refl)
        ]))

  pending-Works :
      (s : Slots) (p : Piece) (ps : List Piece)
      → IsSound pool_size limit s
      → 0 < pool_size
      → s.running ≡ []
      → s.held ≡ none
      → s.pending ≡ p ∷ ps
      → Works s
  unfolding step
  pending-Works s p ps k room over q f =
      let free : ltb s.pool pool_size ≡ true =
        ground (arith, k.pool_filled, ap (total pooled) over, ap held_number q) in
      Works-if Event.take_pool s _ refl refl (
        subst (λ h. is_some (take_pool_for pool_size limit h s.pending s) ≡ true) (sym q)
          (subst (λ xs. is_some (take_pool_for pool_size limit none xs s) ≡ true) (sym f)
            (rw free refl)))

  stuck-IsDrained :
      (s : Slots) (running : List (Piece × Stage)) (held : Option Piece) (pending : List Piece)
      → IsSound pool_size limit s
      → 0 < pool_size
      → s.running ≡ running
      → s.held ≡ held
      → s.pending ≡ pending
      → IsDrained s ⊎ Works s
  stuck-IsDrained s (x ∷ xs) h ps k room r q f = inr (handler-Works s x xs r)
  stuck-IsDrained s [] (some p) ps k room r q f = inr (held-Works s p k r q)
  stuck-IsDrained s [] none (p ∷ ps) k room r q f = inr (pending-Works s p ps k room r q f)
  stuck-IsDrained s [] none [] k room r q f = inl (record {
    none_pending = f;
    none_held = q;
    none_inflight = omega (arith, k.counted, ap (total (λ x. 1)) r);
  })

  -- With a place in the pool there is no deadlock: after every interleaving of the loop, the
  -- handlers and a shutdown, either everything is dispatched and all handlers have left, so that
  -- drain returns, or some piece can take its next place or some handler put its next place back.
  pub run_goes_on :
      (es : List Event) (ps : List Piece) (s : Slots)
      → 0 < pool_size
      → run pool_size limit es (idle ps) ≡ some s
      → IsDrained s ⊎ Works s
  run_goes_on es ps s room e =
      stuck-IsDrained s s.running s.held s.pending
        (After-some (IsSound pool_size limit) (run pool_size limit es (idle ps)) s e
          (run-IsSound pool_size limit es ps))
        room refl refl refl
