-- ===== src/Postgres/Lifecycle/Statements.antt =====
-- Each SQL statement takes every message along the edges of the state machine.
use tickr.Prelude.{
  ℕ, String, List, Bool, true, Option, ◌≡◌, refl, inl, inr, Bool-cases, Option-cases, &&_true,
  some_of, ℤ, All, arith, take, select,
}
use tickr.Message.{Status, terminal}
use tickr.Postgres.Table.{Row, Db, find_row, is_handling, is_pending, order_by, ids_of, id_in}
use tickr.Postgres.Statements.{
  holds, eligible, claim_picks, claim_row, claim_sql, succeed_row, succeed_sql,
  succeed_no_history_sql, retry_row, dead_row, fail_retry_sql, fail_retry_no_history_sql,
  fail_dead_sql, fail_dead_no_history_sql, release_row, release_sql, release_no_history_sql,
  leased_to, extend_row, extend_sql, is_dead_letter_row, requeue_row, requeue_sql, lease_expired,
  reclaim_row, reclaim_sql, finished_before, purge_picks, purge_sql, due_before, completed_first,
  conflicts, enqueue_sql,
}
use tickr.Postgres.Rows.{UniqueIds, Stored, select-Stored, All-order_by, All-take, id_in-Stored}
use tickr.Postgres.Calls.{
  Kind, producing, claiming, succeeding, failing, releasing, extending, requeuing, reclaiming,
  purging,
}
use tickr.Postgres.Lifecycle.{
  Moved, Evolves, Advance, Advance-refl, update-Advance, delete-Advance, append-Advance,
}

pub is_handling-eq : (s : Status) → is_handling s ≡ true → s ≡ Status.handling
is_handling-eq s h = ground arith

pub holds-handling :
    (i a : ℕ) (r : Row)
    → holds i a r ≡ true
    → (r.id ≡ i) × (r.status ≡ Status.handling) × (r.attempt ≡ a)
unfolding holds
holds-handling i a r h = ground arith

-- The rows that claimSQL, reclaimSQL and purgeSQL pick pass the test of their WHERE clause.
pub claim_picks-Stored :
    (now : ℕ) (types : Option (List String)) (batch : ℕ) (shard : Option ℕ) (ms : List Row)
    → UniqueIds ms
    → All (Stored ms (eligible now types shard)) (claim_picks now types batch shard ms)
unfolding claim_picks
claim_picks-Stored now types batch shard ms u =
    All-take _ batch (order_by due_before (select (eligible now types shard) ms)) (
      All-order_by _ due_before (select (eligible now types shard) ms)
        (select-Stored (eligible now types shard) ms u))

pub reclaim_picks-Stored :
    (now limit : ℕ) (ms : List Row)
    → UniqueIds ms
    → All (Stored ms (lease_expired now)) (take limit (select (lease_expired now) ms))
reclaim_picks-Stored now limit ms u =
    All-take _ limit (select (lease_expired now) ms) (select-Stored (lease_expired now) ms u)

pub purge_picks-Stored :
    (before limit : ℕ) (ms : List Row)
    → UniqueIds ms
    → All (Stored ms (finished_before before)) (purge_picks before limit ms)
unfolding purge_picks
purge_picks-Stored before limit ms u =
    All-take _ limit (order_by completed_first (select (finished_before before) ms)) (
      All-order_by _ completed_first (select (finished_before before) ms)
        (select-Stored (finished_before before) ms u))

claim_row-Evolves :
    (now : ℕ) (worker : String) (lease : ℤ) (types : Option (List String)) (shard : Option ℕ)
    (r : Row)
    → eligible now types shard r ≡ true
    → Evolves Moved claiming r (claim_row now worker lease r)
unfolding claim_row eligible
claim_row-Evolves now worker lease types shard r h =
    inr (refl, ((&&_true (is_pending r.status) _ h).0, refl, refl))

module _ (now i attempt : ℕ) (r : Row) (h : holds i attempt r ≡ true) where
  succeed_row-Evolves : Evolves Moved succeeding r (succeed_row now r)
  unfolding succeed_row
  succeed_row-Evolves = inr (refl, ((holds-handling i attempt r h).1, refl, refl))

  retry_row-Evolves :
      (error : String) (next : ℕ) → Evolves Moved failing r (retry_row now error next r)
  unfolding retry_row
  retry_row-Evolves error next = inr (refl, ((holds-handling i attempt r h).1, inl refl, refl))

  dead_row-Evolves : (error : String) → Evolves Moved failing r (dead_row now error r)
  unfolding dead_row
  dead_row-Evolves error = inr (refl, ((holds-handling i attempt r h).1, inr refl, refl))

  release_row-Evolves : (reason : String) → Evolves Moved releasing r (release_row now reason r)
  unfolding release_row
  release_row-Evolves reason = inr (refl, ((holds-handling i attempt r h).1, refl, refl))

extend_row-Evolves :
    (now until i : ℕ) (worker : String) (r : Row)
    → leased_to i worker r ≡ true
    → Evolves Moved extending r (extend_row now until r)
unfolding extend_row leased_to
extend_row-Evolves now until i worker r h =
    let held : r.status ≡ Status.handling = is_handling-eq r.status (ground arith) in
    inr (refl, (held, held, refl))

requeue_row-Evolves :
    (now next i : ℕ) (r : Row)
    → is_dead_letter_row i r ≡ true
    → Evolves Moved requeuing r (requeue_row now next r)
unfolding requeue_row is_dead_letter_row
requeue_row-Evolves now next i r h = inr (refl, (ground arith, refl, refl))

reclaim_row-Evolves :
    (now : ℕ) (r : Row)
    → lease_expired now r ≡ true
    → Evolves Moved reclaiming r (reclaim_row now r)
unfolding reclaim_row lease_expired
reclaim_row-Evolves now r h = inr (refl, (is_handling-eq r.status (ground arith), refl, refl))

pub finished-terminal :
    (before : ℕ) (r : Row) → finished_before before r ≡ true → terminal r.status ≡ true
unfolding finished_before terminal
finished-terminal before r h = ground arith

-- The tables go on under the statements of a kind of call.
abbrev pub Onward : Kind → Db → Db → Type 0
Onward k a b = UniqueIds a.messages → Advance Moved k a.messages b.messages

module _ (now : ℕ) (db : Db) where
  pub claim_sql-Onward :
      (types : Option (List String)) (batch : ℕ) (worker : String) (lease : ℤ) (shard : Option ℕ)
      → Onward claiming db (claim_sql now types batch worker lease shard db).1
  unfolding claim_sql
  claim_sql-Onward types batch worker lease shard u =
      let picks = claim_picks now types batch shard db.messages in
      update-Advance Moved claiming (λ r. id_in (ids_of picks) r.id) (claim_row now worker lease)
        db.messages (λ r. unfold claim_row in refl)
        (λ r found h. claim_row-Evolves now worker lease types shard r (
          id_in-Stored db.messages picks (eligible now types shard) r
            (claim_picks-Stored now types batch shard db.messages u) found h))
        u

  pub reclaim_sql-Onward : (limit : ℕ) → Onward reclaiming db (reclaim_sql now limit db).1
  unfolding reclaim_sql
  reclaim_sql-Onward limit u =
      let picks = take limit (select (lease_expired now) db.messages) in
      update-Advance Moved reclaiming (λ r. id_in (ids_of picks) r.id) (reclaim_row now) db.messages
        (λ r. unfold reclaim_row in refl)
        (λ r found h. reclaim_row-Evolves now r (
          id_in-Stored db.messages picks (lease_expired now) r
            (reclaim_picks-Stored now limit db.messages u) found h))
        u

  pub purge_sql-Onward : (before limit : ℕ) → Onward purging db (purge_sql before limit db).1
  unfolding purge_sql
  purge_sql-Onward before limit u =
      let picks = purge_picks before limit db.messages in
      delete-Advance Moved purging refl (λ r. id_in (ids_of picks) r.id) db.messages
        (λ r found h. finished-terminal before r (
          id_in-Stored db.messages picks (finished_before before) r
            (purge_picks-Stored before limit db.messages u) found h))
        u

  module _ (i attempt : ℕ) where
    pub succeed_no_history_sql-Onward :
        Onward succeeding db (succeed_no_history_sql now i attempt db)
    unfolding succeed_no_history_sql
    succeed_no_history_sql-Onward =
        update-Advance Moved succeeding (holds i attempt) (succeed_row now) db.messages
          (λ r. unfold succeed_row in refl) (λ r found h. succeed_row-Evolves now i attempt r h)

    pub succeed_sql-Onward :
        (worker : String) → Onward succeeding db (succeed_sql now i attempt worker db)
    unfolding succeed_sql
    succeed_sql-Onward worker = succeed_no_history_sql-Onward

    pub fail_retry_no_history_sql-Onward :
        (error : String) (next : ℕ)
        → Onward failing db (fail_retry_no_history_sql now i attempt error next db)
    unfolding fail_retry_no_history_sql
    fail_retry_no_history_sql-Onward error next =
        update-Advance Moved failing (holds i attempt) (retry_row now error next) db.messages
          (λ r. unfold retry_row in refl)
          (λ r found h. retry_row-Evolves now i attempt r h error next)

    pub fail_retry_sql-Onward :
        (error : String) (next : ℕ) (worker : String)
        → Onward failing db (fail_retry_sql now i attempt error next worker db)
    unfolding fail_retry_sql
    fail_retry_sql-Onward error next worker = fail_retry_no_history_sql-Onward error next

    pub fail_dead_no_history_sql-Onward :
        (error : String) → Onward failing db (fail_dead_no_history_sql now i attempt error db)
    unfolding fail_dead_no_history_sql
    fail_dead_no_history_sql-Onward error =
        update-Advance Moved failing (holds i attempt) (dead_row now error) db.messages
          (λ r. unfold dead_row in refl) (λ r found h. dead_row-Evolves now i attempt r h error)

    pub fail_dead_sql-Onward :
        (error worker : String) → Onward failing db (fail_dead_sql now i attempt error worker db)
    unfolding fail_dead_sql
    fail_dead_sql-Onward error worker = fail_dead_no_history_sql-Onward error

    pub release_no_history_sql-Onward :
        (reason : String) → Onward releasing db (release_no_history_sql now i attempt reason db)
    unfolding release_no_history_sql
    release_no_history_sql-Onward reason =
        update-Advance Moved releasing (holds i attempt) (release_row now reason) db.messages
          (λ r. unfold release_row in refl)
          (λ r found h. release_row-Evolves now i attempt r h reason)

    pub release_sql-Onward :
        (reason worker : String) → Onward releasing db (release_sql now i attempt reason worker db)
    unfolding release_sql
    release_sql-Onward reason worker = release_no_history_sql-Onward reason

  pub extend_sql-Onward :
      (i : ℕ) (worker : String) (until : ℕ)
      → Onward extending db (extend_sql now i worker until db).1
  unfolding extend_sql
  extend_sql-Onward i worker until =
      update-Advance Moved extending (leased_to i worker) (extend_row now until) db.messages
        (λ r. unfold extend_row in refl) (λ r found h. extend_row-Evolves now until i worker r h)

  pub requeue_sql-Onward : (i next : ℕ) → Onward requeuing db (requeue_sql now i next db).1
  unfolding requeue_sql
  requeue_sql-Onward i next =
      update-Advance Moved requeuing (is_dead_letter_row i) (requeue_row now next) db.messages
        (λ r. unfold requeue_row in refl) (λ r found h. requeue_row-Evolves now next i r h)

pub enqueue_sql-Onward :
    (partitioned : Bool) (r : Row) (db : Db)
    → r.status ≡ Status.created
    → r.attempt ≡ 0
    → Onward producing db (enqueue_sql partitioned r db).1
unfolding enqueue_sql
enqueue_sql-Onward partitioned r db e a u =
    elim (Bool-cases (some_of (conflicts partitioned r) db.messages)) [
      | inl q ↦ rw q (Advance-refl Moved producing db.messages u)
      | inr q ↦ elim (Option-cases (find_row r.id db.messages)) [
        | inl n ↦ rw (q, n) (append-Advance Moved producing refl r db.messages n e a u)
        | inr (x, n) ↦ rw (q, n) (Advance-refl Moved producing db.messages u)
      ]
    ]
