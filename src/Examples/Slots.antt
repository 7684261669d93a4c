-- ===== src/Examples/Slots.antt =====
-- The theorems on the engine's slots, at three pieces with one place for the type "sms".
use tickr.Prelude.{
  String, List, [], ◌∷◌, true, false, none, some, ◌≡◌, refl, pos, ℤ, if◌then◌else◌, str_eq, arith,
  ◌++◌, ◌⊎◌,
}
use tickr.Postgres.Session.{scan_message}
use tickr.Engine.Slots.{Piece, Stage, adjust, Event, Slots, idle, run}
use tickr.Engine.Slots.Soundness.{After, IsSound, run-IsSound}
use tickr.Engine.Slots.Amounts.{weigh}
use tickr.Engine.Slots.Drain.{IsDrained, Works, run_drained, run_goes_on}
use tickr.Examples.{unary, waiting}

abbrev piece : String → Piece
piece t = record { event_type = t; messages = scan_message unary waiting ∷ [] }

abbrev pieces : List Piece
pieces = piece "sms" ∷ piece "email" ∷ piece "sms" ∷ []

abbrev limits : String → ℤ
limits t = if str_eq t "sms" then pos 1 else pos 0

-- The first two start; the third waits for its type until the shutdown.
abbrev half : List Event
half =
    Event.take_pool
    ∷ Event.take_type
    ∷ Event.take_pool
    ∷ Event.take_type
    ∷ Event.free_type 0
    ∷ Event.free_pool 0
    ∷ Event.take_pool
    ∷ []

abbrev rest : List Event
rest =
    Event.shutdown
    ∷ Event.refuse_type
    ∷ Event.free_type 1
    ∷ Event.free_pool 0
    ∷ Event.leave 0
    ∷ Event.leave 0
    ∷ []

abbrev midway : Slots
midway = record {
  pending = [];
  held = some (piece "sms");
  running = (piece "email", Stage.unpooled) ∷ (piece "sms", Stage.working) ∷ [];
  pool = 2;
  sems = adjust "sms" 1 (λ t. 0);
  inflight = 2;
  returned = [];
  finished = [];
  ended = false;
}

abbrev over : Slots
over = record {
  pending = [];
  held = none;
  running = [];
  pool = 0;
  sems = adjust "sms" 0 (adjust "sms" 1 (λ t. 0));
  inflight = 0;
  returned = (piece "sms").messages;
  finished = (piece "sms").messages ++ (piece "email").messages;
  ended = true;
}

over-IsDrained : IsDrained over
over-IsDrained = record { none_pending = refl; none_held = refl; none_inflight = refl }

run-IsSound_example : After (IsSound 2 limits) (run 2 limits half (idle pieces))
run-IsSound_example = run-IsSound 2 limits half pieces

run_drained_example : (over.running ≡ []) × (weigh (λ m. true) (over.finished ++ over.returned) ≡ 3)
unfolding run
run_drained_example =
    run_drained 2 limits (half ++ rest) pieces over (λ m. true) refl over-IsDrained

run_goes_on_example : IsDrained midway ⊎ Works 2 limits midway
unfolding run
run_goes_on_example = run_goes_on 2 limits half pieces midway (omega arith) refl
