-- ===== src/Examples.antt =====
-- Small tables and an instance of each parameter, on which the theorems are run.
pub mod Store
pub mod Policy
pub mod Engine
pub mod Producing
pub mod Handling
pub mod Slots
pub mod Mysql
pub mod Locks
use Prim.Native.Char.{nul}
use tickr.Prelude.{
  ℕ, zero, suc, String, List, [], ◌∷◌, Bool, true, false, Option, none, some, ◌≡◌, refl, pos, ap,
  map_option,
}
use tickr.Errors.{text}
use tickr.Message.{Status, EnqueueParams, ClaimParams}
use tickr.Postgres.Table.{Row, Db}
use tickr.Postgres.Session.{Driver, Session, Config, Wire}

-- Ids printed in unary.
abbrev pub tally : ℕ → String
tally zero = ""
tally (suc n) = String.◌∷◌ nul (tally n)

abbrev pub count : String → ℕ
count String.[] = 0
count (String.◌∷◌ c s) = suc (count s)

pub count-tally : (n : ℕ) → count (tally n) ≡ n
count-tally zero = refl
count-tally (suc n) = ap suc (count-tally n)

abbrev pub unary : Driver
unary = record {
  parse = λ s. some (count s);
  format = tally;
  parse-format = λ i. ap some (count-tally i);
  exec_past_end = some (text "no result");
}

abbrev pub plain : Config
plain = record { partitioned = false; notifier_disabled = true; history_off = false }

-- A message of type "email" that is due since 40.
abbrev pub waiting : Row
waiting = record {
  id = 7;
  event_type = "email";
  payload = 1 ∷ [];
  headers = [];
  idempotency_key = some "k";
  status = Status.created;
  attempt = 0;
  max_attempts = 3;
  process_at = 40;
  shard = 2;
  claimed_until = none;
  claimed_by = none;
  last_error = none;
  created_at = 30;
  updated_at = 30;
  completed_at = none;
}

-- Another one, under its second attempt by a worker whose lease ends at 90.
abbrev pub running : Row
running = record waiting {
  id = 9;
  idempotency_key = none;
  status = Status.handling;
  attempt = 2;
  claimed_until = some 90;
  claimed_by = some "w";
}

abbrev pub two_rows : Db
two_rows = record { messages = waiting ∷ running ∷ []; history = []; notified = [] }

abbrev pub session_at : ℕ → List Wire → Db → Session
session_at now wires db = record {
  db = db;
  now = now;
  wires = wires;
  draws = 5 ∷ [];
  ids = 11 ∷ [];
}

abbrev pub email : String → EnqueueParams
email key = record {
  event_type = "email";
  payload = 4 ∷ [];
  headers = [];
  idempotency_key = key;
  max_attempts = pos 0;
  process_at = 0;
}
