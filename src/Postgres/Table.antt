-- ===== src/Postgres/Table.antt =====
-- The tables tickr_messages and tickr_history (storage/postgres/migrations/0001_init.sql), and
-- the SQL clauses that the statements of storage/postgres/postgres.go are made of. A statement runs
-- alone: the database's row locks give each one that view.
use tickr.Prelude.{
  ℕ, String, List, [], ◌∷◌, map, Bool, true, false, Option, none, some, ltb, ◌==◌, if◌then◌else◌,
  some_of, str_eq, max,
}
use tickr.Message.{Status}

-- A row of tickr_messages; the 128 bits of a uuid are read as a number, which orders alike.
pub record Row : Type 0 where
  pub id : ℕ
  pub event_type : String
  pub payload : List ℕ
  pub headers : List (String × String)
  pub idempotency_key : Option String
  pub status : Status
  pub attempt : ℕ
  pub max_attempts : ℕ
  pub process_at : ℕ
  pub shard : ℕ
  pub claimed_until : Option ℕ
  pub claimed_by : Option String
  pub last_error : Option String
  pub created_at : ℕ
  pub updated_at : ℕ
  pub completed_at : Option ℕ

pub record HistoryRow : Type 0 where
  pub message_id : ℕ
  pub seq : ℕ
  pub from_status : Option Status
  pub to_status : Status
  pub attempt : ℕ
  pub error : Option String
  pub worker_id : Option String
  pub at : ℕ

-- `notified` lists the payloads sent by pg_notify, oldest first.
pub record Db : Type 0 where
  pub messages : List Row
  pub history : List HistoryRow
  pub notified : List String

abbrev pub empty_db : Db
empty_db = record { messages = []; history = []; notified = [] }

-- The row with a given primary key.
unfoldable pub find_row : ℕ → List Row → Option Row
find_row i [] = none
find_row i (r ∷ rs) = if r.id == i then some r else find_row i rs

-- UPDATE ... SET f WHERE p
unfoldable pub update_where : (Row → Bool) → (Row → Row) → List Row → List Row
update_where p f [] = []
update_where p f (r ∷ rs) = (if p r then f r else r) ∷ update_where p f rs

-- DELETE ... WHERE p
unfoldable pub delete_where {ℓ} : {A : Type ℓ} → (A → Bool) → List A → List A
delete_where p [] = []
delete_where p (r ∷ rs) = let rest = delete_where p rs in if p r then rest else r ∷ rest

-- ORDER BY, for a strict test `before`.
unfoldable pub insert_by {ℓ} : {A : Type ℓ} → (A → A → Bool) → A → List A → List A
insert_by before x [] = x ∷ []
insert_by before x (y ∷ ys) =
    let rest = insert_by before x ys in if before y x then y ∷ rest else x ∷ y ∷ ys

unfoldable pub order_by {ℓ} : {A : Type ℓ} → (A → A → Bool) → List A → List A
unfolding insert_by
order_by before [] = []
order_by before (x ∷ xs) = insert_by before x (order_by before xs)

-- i = ANY(ids)
abbrev pub id_in : List ℕ → ℕ → Bool
id_in ids i = some_of (λ j. j == i) ids

abbrev pub string_in : List String → String → Bool
string_in names s = some_of (λ n. str_eq n s) names

abbrev pub ids_of : List Row → List ℕ
ids_of = map (λ r. r.id)

-- NULLIF(s, '')
unfoldable pub nullif : String → Option String
nullif s = if str_eq s "" then none else some s

-- A comparison with NULL is not true.
abbrev pub lt_opt : Option ℕ → ℕ → Bool
lt_opt none t = false
lt_opt (some c) t = ltb c t

abbrev pub opt_lt : Option ℕ → Option ℕ → Bool
opt_lt a none = false
opt_lt a (some t) = lt_opt a t

abbrev pub opt_is : String → Option String → Bool
opt_is w none = false
opt_is w (some v) = str_eq v w

abbrev pub same_key : Option String → Option String → Bool
same_key a none = false
same_key a (some key) = opt_is key a

-- COALESCE(MAX(seq), 0) over the history of one message.
unfoldable pub max_seq : ℕ → List HistoryRow → ℕ
max_seq i [] = 0
max_seq i (h ∷ hs) = let rest = max_seq i hs in if h.message_id == i then max h.seq rest else rest

abbrev pub is_handling : Status → Bool
is_handling Status.handling = true
is_handling _ = false

abbrev pub is_dead : Status → Bool
is_dead Status.dead = true
is_dead _ = false

-- status IN ('CREATED','RETRYING')
abbrev pub is_pending : Status → Bool
is_pending Status.created = true
is_pending Status.retrying = true
is_pending _ = false

-- status IN ('SUCCESS','DEAD')
abbrev pub is_finished : Status → Bool
is_finished Status.success = true
is_finished Status.dead = true
is_finished _ = false
