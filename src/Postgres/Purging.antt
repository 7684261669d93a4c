-- ===== src/Postgres/Purging.antt =====
-- What a purge deletes (PurgeTerminal of storage/postgres/postgres.go).
use tickr.Prelude.{
  ℕ, ◌≤◌, Bool, true, Option, none, some, ◌≡◌, refl, sym, ◌∙◌, inl, inr, Bool-cases, length, select,
  take_of_length-le, arith,
}
use tickr.Postgres.Table.{Row, Db, find_row, order_by, id_in, ids_of}
use tickr.Postgres.Statements.{finished_before, completed_first, purge_picks, purge_sql}
use tickr.Postgres.Rows.{UniqueIds, unless_row, find_row_self, find_row-delete, id_in-Stored}
use tickr.Postgres.Ordering.{id_in-order_by, id_in-select, length-order_by}
use tickr.Postgres.Lifecycle.Statements.{purge_picks-Stored}

module _ (before limit : ℕ) (db : Db) (u : UniqueIds db.messages) where
  abbrev purged : Row → Bool
  purged r = id_in (ids_of (purge_picks before limit db.messages)) r.id

  purged-all :
      (r : Row)
      → length (select (finished_before before) db.messages) ≤ limit
      → find_row r.id db.messages ≡ some r
      → finished_before before r ≡ true
      → purged r ≡ true
  unfolding purge_picks
  purged-all r room found h =
      rw
        (take_of_length-le limit
          (order_by completed_first (select (finished_before before) db.messages))
          (omega
            (arith, length-order_by completed_first (select (finished_before before) db.messages))))
        (id_in-order_by completed_first (select (finished_before before) db.messages) r.id
          ∙ id_in-select (finished_before before) db.messages r found h)

  purged_exact :
      (r : Row)
      → length (select (finished_before before) db.messages) ≤ limit
      → find_row r.id db.messages ≡ some r
      → purged r ≡ finished_before before r
  purged_exact r room found = elim (Bool-cases (finished_before before r)) [
    | inl e ↦ purged-all r room found e ∙ sym e
    | inr e ↦ elim (Bool-cases (purged r)) [
      | inl t ↦ absurd (
          ground (
            arith,
            id_in-Stored db.messages (purge_picks before limit db.messages) (finished_before before)
                r (purge_picks-Stored before limit db.messages u) found t,
          ))
      | inr t ↦ t ∙ sym e
    ]
  ]

  pub purge_sql_exact :
      (i : ℕ)
      → length (select (finished_before before) db.messages) ≤ limit
      → find_row i (purge_sql before limit db).1.messages
        ≡ unless_row (finished_before before) (find_row i db.messages)
  unfolding purge_sql
  purge_sql_exact i room =
      find_row-delete i purged db.messages u ∙ at_row (find_row i db.messages) refl
    where
      at_row :
          (o : Option Row)
          → find_row i db.messages ≡ o
          → unless_row purged o ≡ unless_row (finished_before before) o
      at_row none e = refl
      at_row (some r) e = rw (purged_exact r room (find_row_self i db.messages r e)) refl
