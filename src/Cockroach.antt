-- ===== src/Cockroach.antt =====
-- storage/cockroach/cockroach.go: TryLeaderLock, a lease in the table tickr_locks, and its unlock. All
-- other methods are those of the Postgres store.
pub mod Exclusion
use tickr.Prelude.{
  ℕ, ◌+◌, String, List, [], ◌∷◌, Bool, true, false, not, ◌&&◌, Option, none, some, ltb, str_eq,
  select, if◌then◌else◌,
}
use tickr.Errors.{Error, wrapped}
use tickr.Postgres.Session.{Wire, made, refused, cut, broken}

-- A row of tickr_locks, whose primary key is `key`.
pub record Lock : Type 0 where
  pub key : String
  pub holder : String
  pub expires_at : ℕ

-- INTERVAL '60 seconds'
abbrev pub lock_ttl : ℕ
lock_ttl = 60_000_000_000

abbrev pub new_lock : ℕ → String → String → Lock
new_lock now key holder = record { key = key; holder = holder; expires_at = now + lock_ttl }

-- The INSERT ... ON CONFLICT DO UPDATE ... WHERE; `none` is no row to RETURN.
unfoldable pub try_lock_sql : ℕ → String → String → List Lock → Option Bool × List Lock
try_lock_sql now key holder [] = (some (str_eq holder holder), new_lock now key holder ∷ [])
try_lock_sql now key holder (l ∷ ls) =
    let (got, ls') = try_lock_sql now key holder ls in
    if str_eq l.key key
    then (if ltb l.expires_at now
        then (some (str_eq holder holder), new_lock now key holder ∷ ls)
        else (none, l ∷ ls))
    else (got, l ∷ ls')

unfoldable pub unlock_sql : String → String → List Lock → List Lock
unlock_sql key holder ls = select (λ l. not (str_eq l.key key && str_eq l.holder holder)) ls

-- No row is contention.
abbrev pub granted : Option Bool → Bool
granted none = false
granted (some got) = got

abbrev pub answered : Option Bool × List Lock → (Bool × Error) × List Lock
answered (got, ls) = ((granted got, none), ls)

-- An answer that is lost leaves what the statement did.
abbrev pub lost : List Lock → (Bool × Error) × List Lock
lost ls = ((false, some (wrapped "tickr/cockroach: try leader lock" broken)), ls)

-- `holder` is the new uuid.
unfoldable pub try_leader_lock : Wire → ℕ → String → String → List Lock → (Bool × Error) × List Lock
unfolding try_lock_sql
try_leader_lock made now key holder ls = answered (try_lock_sql now key holder ls)
try_leader_lock refused now key holder ls = lost ls
try_leader_lock cut now key holder ls = lost (try_lock_sql now key holder ls).1

-- The unlock function, whose error is dropped.
unfoldable pub unlock : Wire → String → String → List Lock → List Lock
unfolding unlock_sql
unlock refused key holder ls = ls
unlock _ key holder ls = unlock_sql key holder ls

-- What the workers do, in the order of the database: attempts with what becomes of their round trip,
-- the key and the holder, unlocks, and time that passes.
pub data Event : Type 0 where
  attempt : Wire → String → String → Event
  release : Wire → String → String → Event
  wait : ℕ → Event

pub record Clocked : Type 0 where
  pub now : ℕ
  pub locks : List Lock

unfoldable pub after : Event → Clocked → Clocked
unfolding try_leader_lock unlock
after (attempt w key holder) s = record s { locks = (try_leader_lock w s.now key holder s.locks).1 }
after (release w key holder) s = record s { locks = unlock w key holder s.locks }
after (wait n) s = record s { now = s.now + n }

unfoldable pub after_all : List Event → Clocked → Clocked
unfolding after
after_all [] s = s
after_all (e ∷ es) s = after_all es (after e s)
