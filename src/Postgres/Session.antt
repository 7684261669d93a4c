-- ===== src/Postgres/Session.antt =====
-- What the methods of storage/postgres/postgres.go run on: the tables, the clock and what the
-- world outside decides, with the round trips to the database.
pub mod Within
pub mod Outcomes
use tickr.Prelude.{
  ℕ, ◌%◌, String, List, [], ◌∷◌, Bool, true, false, Option, none, some, ltb, pos, ◌≡◌,
}
use tickr.Errors.{Err, Error, text, wrapped}
use tickr.Message.{InboundMessage}
use tickr.Postgres.Table.{Row, Db}

-- The packages google/uuid and jackc/pgx: a uuid prints to a text that parses back, and
-- `exec_past_end` is what a batch answers to an Exec beyond its queued statements.
pub record Driver : Type 0 where
  pub parse : String → Option ℕ
  pub format : ℕ → String
  pub parse-format : (i : ℕ) → parse (format i) ≡ some i
  pub exec_past_end : Error

-- What becomes of a round trip: it is made, it fails before the statement runs, or the
-- connection is cut after the statement has committed.
pub data Wire : Type 0 where
  made refused cut : Wire

-- `wires`, `draws` and `ids` are the coming outcomes of round trips, values of `rand.IntN` and
-- values of `newID`; `now` is the clock.
pub record Session : Type 0 where
  pub db : Db
  pub now : ℕ
  pub wires : List Wire
  pub draws : List ℕ
  pub ids : List ℕ

pub data Result {ℓ} (A : Type ℓ) : Type ℓ where
  ok : A → Result A
  err : Err → Result A

abbrev pub Action : Type 0 → Type 0
Action A = Session → Result A × Session

abbrev pub continue : {A B : Type 0} → Result A → (A → Action B) → Action B
continue (ok a) f s = f a s
continue (err e) f s = (err e, s)

infixl 5 ◌>>=◌ ◌>>◌
abbrev pub ◌>>=◌ : {A B : Type 0} → Action A → (A → Action B) → Action B
◌>>=◌ m f s = let (r, s') = m s in continue r f s'

abbrev pub ◌>>◌ : {A B : Type 0} → Action A → Action B → Action B
m >> n = m >>= λ _. n

abbrev pub pure : {A : Type 0} → A → Action A
pure a s = (ok a, s)

abbrev pub raise : {A : Type 0} → Err → Action A
raise e s = (err e, s)

abbrev pub broken : Err
broken = text "connection failure"

-- The outcome of the next round trip; when none is foretold it is made.
unfoldable pub next_wire : List Wire → Wire
next_wire [] = made
next_wire (w ∷ ws) = w

unfoldable pub rest_wires : List Wire → List Wire
rest_wires [] = []
rest_wires (w ∷ ws) = ws

unfoldable pub conclude : {A : Type 0} → Wire → A × Db → Session → Result A × Session
conclude made (a, db) s = (ok a, record s { db = db })
conclude refused (a, db) s = (err broken, s)
conclude cut (a, db) s = (err broken, record s { db = db })

-- One round trip that runs a statement: a function of the clock and the tables.
unfoldable pub round_trip : {A : Type 0} → (ℕ → Db → A × Db) → Action A
unfolding next_wire rest_wires conclude
round_trip st s =
    conclude (next_wire s.wires) (st s.now s.db) (record s { wires = rest_wires s.wires })

-- `fmt.Errorf("...: %w", err)` on the error path.
abbrev pub relabel : {A : Type 0} → String → Result A → Result A
relabel what (ok a) = ok a
relabel what (err e) = err (wrapped what e)

unfoldable pub context : {A : Type 0} → String → Action A → Action A
context what m s = let (r, s') = m s in (relabel what r, s')

-- numClaimShards
abbrev pub num_claim_shards : ℕ
num_claim_shards = 16

unfoldable pub draw : List ℕ → Session → ℕ × Session
draw [] s = (0, s)
draw (k ∷ ks) s = (k % num_claim_shards, record s { draws = ks })

unfoldable pub pick_shard : Session → ℕ × Session
unfolding draw
pick_shard s = draw s.draws s

unfoldable pub supply : List ℕ → Session → ℕ × Session
supply [] s = (0, s)
supply (k ∷ ks) s = (k, record s { ids = ks })

unfoldable pub new_id : Session → ℕ × Session
unfolding supply
new_id s = supply s.ids s

-- The options of `New`.
pub record Config : Type 0 where
  pub partitioned : Bool
  pub notifier_disabled : Bool
  pub history_off : Bool

abbrev pub when_parsed : {A : Type 0} → String → Option ℕ → (ℕ → Action A) → Action A
when_parsed what none run = raise (wrapped what (text "bad id"))
when_parsed what (some i) run = run i

-- `uuid.Parse(string(id))`, with the error of the method named in `what`.
unfoldable pub with_id : {A : Type 0} → Driver → String → String → (ℕ → Action A) → Action A
with_id d what id run = when_parsed what (d.parse id) run

-- A pgx.Batch in its own transaction: `queued` statements with the effect `effect`, and `sent`
-- calls of Exec on its results. An Exec beyond the queued ones may fail, which rolls back.
abbrev rolled_back : Error → Bool → (Db → Db) → Db → Error × Db
rolled_back e false effect db = (none, effect db)
rolled_back none true effect db = (none, effect db)
rolled_back (some e) true effect db = (some e, db)

unfoldable pub answer : Error → Action (Unit {0})
answer none = pure tt
answer (some e) = raise e

unfoldable pub send_batch : Driver → ℕ → ℕ → (ℕ → Db → Db) → Action (Unit {0})
unfolding answer round_trip
send_batch d queued sent effect = do
  e ← round_trip (λ now. rolled_back d.exec_past_end (ltb queued sent) (effect now))
  answer e

unfoldable pub text_of : Option String → String
text_of none = ""
text_of (some t) = t

-- scanMessage
unfoldable pub scan_message : Driver → Row → InboundMessage
unfolding text_of
scan_message d r = record {
  id = d.format r.id;
  type_name = r.event_type;
  payload = r.payload;
  headers = r.headers;
  idempotency_key = text_of r.idempotency_key;
  attempt = r.attempt;
  max_attempts = pos r.max_attempts;
  enqueued_at = r.created_at;
  scheduled_at = r.process_at;
  last_error = text_of r.last_error;
  status = some r.status;
}
