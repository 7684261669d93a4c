-- ===== src/Mysql/Lifecycle.antt =====
-- The state machine of a message in the MySQL store, as steps of one row (storage/mysql/mysql.go).
pub mod Statements
pub mod Transactions
pub mod Claiming
pub mod Runs
use tickr.Prelude.{ℕ, ◌-◌, true, Bool, ltb, if◌then◌else◌, ◌≡◌, refl, arith}
use tickr.Message.{Status}
use tickr.Postgres.Table.{Row, Db}
use tickr.Postgres.Rows.{UniqueIds}
use tickr.Postgres.Calls.{Kind, releasing}
use tickr.Postgres.Lifecycle
use tickr.Postgres.Lifecycle.{Moves, Advance, Advance-refl, Advance-trans, inserts, deletes}

-- What a call of each kind may do, as in the Postgres store but for a release, which goes back to
-- CREATED if no attempt was made before.
abbrev pub Moved : Kind → Row → Row → Type 0
Moved releasing r r' =
    (r.status ≡ Status.handling)
    × (r'.status ≡ (if ltb 1 r.attempt then Status.retrying else Status.created))
    × (r'.attempt ≡ r.attempt - 1)
Moved k r r' = Lifecycle.Moved k r r'

Moved-trans : (k : Kind) (r x y : Row) → Moved k r x → Moved k x y → Moved k r y
Moved-trans releasing r x y g h = absurd (ground (arith, g, h))
Moved-trans k r x y g h = Lifecycle.Moved-Moves.trans_M k r x y g h

Moved-insert : (k : Kind) (r x : Row) → inserts k ≡ true → Moved k r x → ⊥
Moved-insert releasing r x e g = absurd (ground (arith, e))
Moved-insert k r x e g = Lifecycle.Moved-Moves.no_insert k r x e g

Moved-delete : (k : Kind) (r x : Row) → deletes k ≡ true → Moved k r x → ⊥
Moved-delete releasing r x e g = absurd (ground (arith, e))
Moved-delete k r x e g = Lifecycle.Moved-Moves.no_delete k r x e g

Moved-Moves : Moves Moved
Moved-Moves = record { trans_M = Moved-trans; no_insert = Moved-insert; no_delete = Moved-delete }

-- The tables go on.
abbrev pub Onward : Kind → Db → Db → Type 0
Onward k a b = UniqueIds a.messages → Advance Moved k a.messages b.messages

pub Onward-refl : (k : Kind) (a : Db) → Onward k a a
Onward-refl k a u = Advance-refl Moved k a.messages u

pub Onward-trans : (k : Kind) (a b c : Db) → Onward k a b → Onward k b c → Onward k a c
Onward-trans k a b c p q u = Advance-trans Moved Moved-Moves k (p u) (q (p u).unique)
