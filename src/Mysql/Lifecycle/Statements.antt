-- ===== src/Mysql/Lifecycle/Statements.antt =====
-- Each SQL statement of the MySQL store takes every message along the edges of its state machine.
use tickr.Prelude.{
  ℕ, String, Bool, true, ◌≡◌, refl, inl, inr, Bool-cases, Option-cases, some_of, arith, take,
  select,
}
use tickr.Message.{Status, EnqueueParams}
use tickr.Postgres.Table.{Row, Db, find_row, ids_of, id_in}
use tickr.Postgres.Statements.{
  extend_row, is_dead_letter_row, lease_expired, finished_before, purge_history_sql,
}
use tickr.Postgres.Enqueue.{new_row}
use tickr.Postgres.Rows.{KeepsId, select-Stored, All-take, id_in-Stored}
use tickr.Postgres.Lifecycle.{Evolves, Advance-refl, update-Advance, delete-Advance, append-Advance}
use tickr.Postgres.Lifecycle.Statements.{is_handling-eq, finished-terminal}
use tickr.Mysql.Statements.{
  append_history_sql, succeed_row, dead_row, retry_row, release_row, requeue_row, update_sql,
  reclaim_row, reclaim_sql, purge_sql, held_by, extend_held_sql, clashes, insert_sql,
}
use tickr.Mysql.Session.{Ids}
use tickr.Postgres.Calls.{
  Kind, reading, producing, succeeding, failing, releasing, extending, requeuing, reclaiming,
  purging,
}
use tickr.Mysql.Lifecycle.{Moved, Onward, Onward-refl}

pub held_by-handling :
    (d : Ids) (i : ℕ) (worker : String) (r : Row)
    → held_by d i worker r ≡ true
    → r.status ≡ Status.handling
unfolding held_by
held_by-handling d i worker r h = is_handling-eq r.status (ground arith)

-- An UPDATE of rows that go along an edge.
pub update_sql-Onward :
    (kind : Kind) (p : Row → Bool) (f : Row → Row) (db : Db)
    → KeepsId f
    → ((r : Row) → p r ≡ true → Evolves Moved kind r (f r))
    → Onward kind db (update_sql p f db)
update_sql-Onward kind p f db keeps goes =
    update-Advance Moved kind p f db.messages keeps (λ r found h. goes r h)

module _ (now : ℕ) (db : Db) where
  pub succeed_row-Onward :
      (p : Row → Bool)
      → ((r : Row) → p r ≡ true → r.status ≡ Status.handling)
      → Onward succeeding db (update_sql p (succeed_row now) db)
  unfolding succeed_row
  succeed_row-Onward p over =
      update_sql-Onward succeeding p (succeed_row now) db (λ r. refl)
        (λ r h. inr (refl, (over r h, refl, refl)))

  module _ (d : Ids) (i : ℕ) (worker : String) where
    pub dead_row-Onward :
        (error : String)
        → Onward failing db (update_sql (held_by d i worker) (dead_row now error) db)
    unfolding dead_row
    dead_row-Onward error =
        update_sql-Onward failing (held_by d i worker) (dead_row now error) db (λ r. refl)
          (λ r h. inr (refl, (held_by-handling d i worker r h, inr refl, refl)))

    pub retry_row-Onward :
        (error : String) (next : ℕ)
        → Onward failing db (update_sql (held_by d i worker) (retry_row now error next) db)
    unfolding retry_row
    retry_row-Onward error next =
        update_sql-Onward failing (held_by d i worker) (retry_row now error next) db (λ r. refl)
          (λ r h. inr (refl, (held_by-handling d i worker r h, inl refl, refl)))

    pub release_row-Onward :
        Onward releasing db (update_sql (held_by d i worker) (release_row now) db)
    unfolding release_row
    release_row-Onward =
        update_sql-Onward releasing (held_by d i worker) (release_row now) db (λ r. refl)
          (λ r h. inr (refl, (held_by-handling d i worker r h, refl, refl)))

    pub extend_held_sql-Onward :
        (until : ℕ) → Onward extending db (extend_held_sql d now i worker until db).1
    unfolding extend_held_sql extend_row
    extend_held_sql-Onward until =
        update_sql-Onward extending (held_by d i worker) (extend_row now until) db (λ r. refl)
          (λ r h.
            inr (refl, (held_by-handling d i worker r h, held_by-handling d i worker r h, refl)))

  pub requeue_row-Onward :
      (i next : ℕ)
      → Onward requeuing db (update_sql (is_dead_letter_row i) (requeue_row now next) db)
  unfolding requeue_row is_dead_letter_row
  requeue_row-Onward i next =
      update_sql-Onward requeuing (is_dead_letter_row i) (requeue_row now next) db (λ r. refl)
        (λ r h. inr (refl, (ground arith, refl, refl)))

  pub append_history_sql-Onward :
      (kind : Kind) (i : ℕ) (from to : Status) (attempt : ℕ) (error worker : String)
      → Onward kind db (append_history_sql now i from to attempt error worker db)
  unfolding append_history_sql
  append_history_sql-Onward kind i from to attempt error worker = Onward-refl kind db

  pub reclaim_sql-Onward : (limit : ℕ) → Onward reclaiming db (reclaim_sql now limit db).1
  unfolding reclaim_sql reclaim_row lease_expired
  reclaim_sql-Onward limit u =
      let picks = take limit (select (lease_expired now) db.messages) in
      update-Advance Moved reclaiming (λ r. id_in (ids_of picks) r.id) (reclaim_row now) db.messages
        (λ r. refl)
        (λ r found h.
          let expired =
            id_in-Stored db.messages picks (lease_expired now) r
              (All-take _ limit (select (lease_expired now) db.messages)
                (select-Stored (lease_expired now) db.messages u))
              found h in
          inr (refl, (is_handling-eq r.status (ground (arith, expired)), refl, refl)))
        u

pub purge_sql-Onward :
    (before limit : ℕ) (db : Db) → Onward purging db (purge_sql before limit db).1
unfolding purge_sql
purge_sql-Onward before limit db u =
    let picks = take limit (select (finished_before before) db.messages) in
    delete-Advance Moved purging refl (λ r. id_in (ids_of picks) r.id) db.messages
      (λ r found h. finished-terminal before r (
        id_in-Stored db.messages picks (finished_before before) r
          (All-take _ limit (select (finished_before before) db.messages)
            (select-Stored (finished_before before) db.messages u))
          found h))
      u

pub purge_history_sql-Onward :
    (before limit : ℕ) (db : Db) → Onward reading db (purge_history_sql before limit db).1
unfolding purge_history_sql
purge_history_sql-Onward before limit db = Onward-refl reading db

pub insert_sql-Onward :
    (d : Ids) (now id shard : ℕ) (p : EnqueueParams) (db : Db)
    → Onward producing db (insert_sql d (new_row now id shard p) db).1
unfolding insert_sql new_row
insert_sql-Onward d now id shard p db u =
    let r : Row = new_row now id shard p in
    elim (Bool-cases (some_of (clashes d r.idempotency_key r) db.messages)) [
      | inl q ↦ rw q (Advance-refl Moved producing db.messages u)
      | inr q ↦ elim (Option-cases (find_row r.id db.messages)) [
        | inl n ↦ rw (q, n) (append-Advance Moved producing refl r db.messages n refl refl u)
        | inr (x, n) ↦ rw (q, n) (Advance-refl Moved producing db.messages u)
      ]
    ]
