-- ===== src/Engine/Slots/Soundness.antt =====
-- The channels of engine.go hold what their fill says, under every interleaving of the loop and the
-- handlers.
use tickr.Prelude.{
  ℕ, ◌+◌, ◌-◌, ◌≤◌, String, List, [], ◌∷◌, true, Option, none, some, ltb, if◌then◌else◌, str_eq_iff,
  ◌≡◌, refl, ap, arith, Bool-cases, inl, inr, ℤ,
}
use tickr.Engine.Slots.{
  Piece, Stage, Slots, Event, idle, take_nth, limit_of, adjust, is_limited, take_type_for,
  refuse_type_for, take_pool_for, refuse_pool_for, free_type_of, free_pool_of, leave_of, step, run,
  then_run,
}
use tickr.Engine.Slots.Counts.{total, total-take_nth, pooled, typed, held_number}

-- A property of the state that a step gives, if it gives one.
abbrev pub After : (Slots → Type 0) → Option Slots → Type 0
After P none = Unit
After P (some s) = P s

module _ (pool_size : ℕ) (limit : String → ℤ) where
  -- Each channel holds one token for each piece that has taken one and not put it back, and no more
  -- than its capacity; the wait group counts the handlers.
  pub record IsSound (s : Slots) : Type 0 where
    pub pool_filled : s.pool ≡ held_number s.held + total pooled s.running
    pub pool_fits : s.pool ≤ pool_size
    pub sems_filled :
        (t : String) → is_limited pool_size limit t ≡ true → s.sems t ≡ total (typed t) s.running
    pub sems_fit : (t : String) → s.sems t ≤ limit_of (limit t)
    pub counted : s.inflight ≡ total (λ x. 1) s.running

  idle-IsSound : (ps : List Piece) → IsSound (idle ps)
  idle-IsSound ps = record {
    pool_filled = refl;
    pool_fits = omega arith;
    sems_filled = λ t h. refl;
    sems_fit = λ t. omega arith;
    counted = refl;
  }

  take_pool_for-IsSound :
      (h : Option Piece) (ps : List Piece) (s : Slots)
      → s.held ≡ h
      → IsSound s
      → After IsSound (take_pool_for pool_size limit h ps s)
  take_pool_for-IsSound (some p) ps s e k = tt
  take_pool_for-IsSound none [] s e k = tt
  take_pool_for-IsSound none (p ∷ ps) s e k = elim (Bool-cases (ltb s.pool pool_size)) [
    | inr q ↦ rw q tt
    | inl q ↦ rw q (record {
      pool_filled = omega (arith, k.pool_filled, ap held_number e);
      pool_fits = ground (arith, q);
      sems_filled = k.sems_filled;
      sems_fit = k.sems_fit;
      counted = k.counted;
    })
  ]

  refuse_pool_for-IsSound :
      (h : Option Piece) (ps : List Piece) (s : Slots)
      → IsSound s
      → After IsSound (refuse_pool_for pool_size limit h ps s)
  refuse_pool_for-IsSound (some p) ps s k = tt
  refuse_pool_for-IsSound none [] s k = tt
  refuse_pool_for-IsSound none (p ∷ ps) s k = elim (Bool-cases s.ended) [
    | inr q ↦ rw q tt
    | inl q ↦ simp q (record {
      pool_filled = k.pool_filled;
      pool_fits = k.pool_fits;
      sems_filled = k.sems_filled;
      sems_fit = k.sems_fit;
      counted = k.counted;
    })
  ]

  take_type_for-IsSound :
      (h : Option Piece) (s : Slots)
      → s.held ≡ h
      → IsSound s
      → After IsSound (take_type_for pool_size limit h s)
  take_type_for-IsSound none s e k = tt
  take_type_for-IsSound (some p) s e k =
      elim (Bool-cases (is_limited pool_size limit p.event_type)) [
        | inl q ↦ elim (Bool-cases (ltb (s.sems p.event_type) (limit_of (limit p.event_type)))) [
          | inr z ↦ rw (q, z) tt
          | inl z ↦
              rw (q, z)
                (record {
                  pool_filled = omega (arith, k.pool_filled, ap held_number e);
                  pool_fits = k.pool_fits;
                  sems_filled = λ t l. ground (
                    arith,
                    k.sems_filled t l,
                    k.sems_filled p.event_type q,
                    str_eq_iff t p.event_type,
                    ap s.sems,
                  );
                  sems_fit =
                      λ t. ground (arith, k.sems_fit t, z, str_eq_iff t p.event_type, ap limit);
                  counted = omega (arith, k.counted);
                })
        ]
        | inr q ↦ rw q (record {
          pool_filled = omega (arith, k.pool_filled, ap held_number e);
          pool_fits = k.pool_fits;
          sems_filled = λ t l. ground (arith, k.sems_filled t l, str_eq_iff t p.event_type, q);
          sems_fit = k.sems_fit;
          counted = omega (arith, k.counted);
        })
      ]

  refuse_type_for-IsSound :
      (h : Option Piece) (s : Slots)
      → s.held ≡ h
      → IsSound s
      → After IsSound (refuse_type_for pool_size limit h s)
  refuse_type_for-IsSound none s e k = tt
  refuse_type_for-IsSound (some p) s e k =
      elim (Bool-cases (is_limited pool_size limit p.event_type)) [
        | inr q ↦ rw q tt
        | inl q ↦ elim (Bool-cases s.ended) [
          | inr z ↦ rw (q, z) tt
          | inl z ↦
              simp (q, z)
                (record {
                  pool_filled = omega (arith, k.pool_filled, ap held_number e);
                  pool_fits = omega (arith, k.pool_fits);
                  sems_filled = k.sems_filled;
                  sems_fit = k.sems_fit;
                  counted = k.counted;
                })
        ]
      ]

  free_type_of-IsSound :
      (o : Option ((Piece × Stage) × List (Piece × Stage))) (n : ℕ) (s : Slots)
      → take_nth n s.running ≡ o
      → IsSound s
      → After IsSound (free_type_of pool_size limit o s)
  free_type_of-IsSound none n s e k = tt
  free_type_of-IsSound (some ((p, Stage.untyped), rest)) n s e k = tt
  free_type_of-IsSound (some ((p, Stage.unpooled), rest)) n s e k = tt
  free_type_of-IsSound (some ((p, Stage.working), rest)) n s e k =
      let x : Piece × Stage = (p, Stage.working) in
      let freed : (t : String)
          → is_limited pool_size limit t ≡ true
          → (if is_limited pool_size limit p.event_type
                then adjust p.event_type (s.sems p.event_type - 1) s.sems
                else s.sems)
              t
            ≡ total (typed t) rest =
        λ t l. ground (
          arith,
          k.sems_filled t l,
          total-take_nth (typed t) n s.running x rest e,
          str_eq_iff t p.event_type,
          ap s.sems,
          ap (is_limited pool_size limit),
        ) in
      record {
        pool_filled = omega (arith, k.pool_filled, total-take_nth pooled n s.running x rest e);
        pool_fits = k.pool_fits;
        sems_filled = λ t l. ground (arith, freed t l);
        sems_fit = λ t. ground (arith, k.sems_fit t, str_eq_iff t p.event_type, ap s.sems);
        counted = omega (arith, k.counted, total-take_nth (λ y. 1) n s.running x rest e);
      }

  free_pool_of-IsSound :
      (o : Option ((Piece × Stage) × List (Piece × Stage))) (n : ℕ) (s : Slots)
      → take_nth n s.running ≡ o
      → IsSound s
      → After IsSound (free_pool_of pool_size limit o s)
  free_pool_of-IsSound none n s e k = tt
  free_pool_of-IsSound (some ((p, Stage.working), rest)) n s e k = tt
  free_pool_of-IsSound (some ((p, Stage.unpooled), rest)) n s e k = tt
  free_pool_of-IsSound (some ((p, Stage.untyped), rest)) n s e k =
      let x : Piece × Stage = (p, Stage.untyped) in
      record {
        pool_filled = omega (arith, k.pool_filled, total-take_nth pooled n s.running x rest e);
        pool_fits = omega (arith, k.pool_fits);
        sems_filled =
            λ t l. ground (arith, k.sems_filled t l, total-take_nth (typed t) n s.running x rest e);
        sems_fit = k.sems_fit;
        counted = omega (arith, k.counted, total-take_nth (λ y. 1) n s.running x rest e);
      }

  leave_of-IsSound :
      (o : Option ((Piece × Stage) × List (Piece × Stage))) (n : ℕ) (s : Slots)
      → take_nth n s.running ≡ o
      → IsSound s
      → After IsSound (leave_of pool_size limit o s)
  leave_of-IsSound none n s e k = tt
  leave_of-IsSound (some ((p, Stage.working), rest)) n s e k = tt
  leave_of-IsSound (some ((p, Stage.untyped), rest)) n s e k = tt
  leave_of-IsSound (some ((p, Stage.unpooled), rest)) n s e k =
      let x : Piece × Stage = (p, Stage.unpooled) in
      record {
        pool_filled = omega (arith, k.pool_filled, total-take_nth pooled n s.running x rest e);
        pool_fits = k.pool_fits;
        sems_filled =
            λ t l. ground (arith, k.sems_filled t l, total-take_nth (typed t) n s.running x rest e);
        sems_fit = k.sems_fit;
        counted = omega (arith, k.counted, total-take_nth (λ y. 1) n s.running x rest e);
      }

  pub step-IsSound : (e : Event) (s : Slots) → IsSound s → After IsSound (step pool_size limit e s)
  unfolding step
  step-IsSound Event.shutdown s k = record {
    pool_filled = k.pool_filled;
    pool_fits = k.pool_fits;
    sems_filled = k.sems_filled;
    sems_fit = k.sems_fit;
    counted = k.counted;
  }
  step-IsSound Event.take_pool s k = take_pool_for-IsSound s.held s.pending s refl k
  step-IsSound Event.refuse_pool s k = refuse_pool_for-IsSound s.held s.pending s k
  step-IsSound Event.take_type s k = take_type_for-IsSound s.held s refl k
  step-IsSound Event.refuse_type s k = refuse_type_for-IsSound s.held s refl k
  step-IsSound (Event.free_type n) s k = free_type_of-IsSound (take_nth n s.running) n s refl k
  step-IsSound (Event.free_pool n) s k = free_pool_of-IsSound (take_nth n s.running) n s refl k
  step-IsSound (Event.leave n) s k = leave_of-IsSound (take_nth n s.running) n s refl k

  -- A property that every step keeps is kept by every run.
  then_run-After :
      (P : Slots → Type 0) (f : Slots → Option Slots)
      → ((s : Slots) → P s → After P (f s))
      → (o : Option Slots) → After P o
      → After P (then_run pool_size limit f o)
  then_run-After P f keeps none h = tt
  then_run-After P f keeps (some s) h = keeps s h

  pub run-After :
      (P : Slots → Type 0)
      → ((e : Event) (s : Slots) → P s → After P (step pool_size limit e s))
      → (es : List Event) (s : Slots) → P s
      → After P (run pool_size limit es s)
  unfolding run
  run-After P keeps [] s k = k
  run-After P keeps (e ∷ es) s k =
      then_run-After P (λ t. run pool_size limit es t) (λ t h. run-After P keeps es t h)
        (step pool_size limit e s) (keeps e s k)

  -- Under every interleaving of the loop, the handlers and a shutdown, from the start on: the pool
  -- holds one token for each piece that waits for a place of its type or whose handler has not put
  -- its place back, and never more than its capacity; the semaphore of a limited type holds one for
  -- each handler of the type that has not put its place back, and never more than the limit; and the
  -- wait group counts the handlers that have not left.
  pub run-IsSound :
      (es : List Event) (ps : List Piece) → After IsSound (run pool_size limit es (idle ps))
  run-IsSound es ps = run-After IsSound step-IsSound es (idle ps) (idle-IsSound ps)
