-- ===== src/Engine/Leases.antt =====
-- engine.go: extendLoop and extendBatchLoop, which extend the leases of the messages that a handler
-- works on, at each tick, and cancel the attempt when a lease is lost.
pub mod Kept
use tickr.Prelude.{ℕ, ◌+◌, List, [], ◌∷◌, Bool, true, false, none, some, if◌then◌else◌}
use tickr.Errors.{Error, text}
use tickr.Message.{InboundMessage}
use tickr.Storage.{ErrorKind}
use tickr.Engine.{World, Engine, alert, lease_or_default}

module _ {S : Type 0} (g : Engine S) where
  -- What an answer of Extend comes to; `true` is a lease that is lost.
  unfoldable pub after_extend : InboundMessage → (Bool × Error) × S → World S → Bool × World S
  after_extend m ((ok, some e), s) w = (false, alert g ErrorKind.lease m e (record w { store = s }))
  after_extend m ((true, none), s) w = (false, record w { store = s })
  after_extend m ((false, none), s) w =
      (true, alert g ErrorKind.lease m (text "lease lost") (record w { store = s }))

  unfoldable pub extend_one : InboundMessage → ℕ → World S → Bool × World S
  unfolding after_extend
  extend_one m until w = after_extend m (g.storage.extend m.id g.worker_id until w.store) w

  -- The messages of one tick, up to the first whose lease is lost.
  abbrev pub unless_lost : Bool × World S → (World S → Bool × World S) → Bool × World S
  unless_lost (true, w) f = (true, w)
  unless_lost (false, w) f = f w

  unfoldable pub extend_all : List InboundMessage → ℕ → World S → Bool × World S
  unfolding extend_one
  extend_all [] until w = (false, w)
  extend_all (m ∷ ms) until w = unless_lost (extend_one m until w) (extend_all ms until)

  abbrev pub lease_until : World S → ℕ
  lease_until w = g.storage.clock w.store + lease_or_default g.lease

  -- The loops over the ticks up to the end of the attempt; before each tick the store changes as the
  -- list says. `true` is an attempt that the loop cancelled.
  unfoldable pub extend_batch_loop : List InboundMessage → List (S → S) → World S → Bool × World S
  unfolding extend_all
  extend_batch_loop ms [] w = (false, w)
  extend_batch_loop ms (f ∷ fs) w =
      let w' = record w { store = f w.store } in
      unless_lost (extend_all ms (lease_until w') w') (extend_batch_loop ms fs)

  unfoldable pub extend_loop : InboundMessage → List (S → S) → World S → Bool × World S
  unfolding extend_one
  extend_loop m [] w = (false, w)
  extend_loop m (f ∷ fs) w =
      let w' = record w { store = f w.store } in
      unless_lost (extend_one m (lease_until w') w') (extend_loop m fs)
