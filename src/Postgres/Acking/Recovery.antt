-- ===== src/Postgres/Acking/Recovery.antt =====
-- A message whose worker died is taken over, and the dead worker's acknowledgement is void
-- (ReclaimExpired, Claim and the acknowledging methods of storage/postgres/postgres.go).
use tickr.Prelude.{
  ℕ, ◌≤◌, String, true, List, Option, none, some, ◌≡◌, ◌≢◌, refl, sym, ◌∙◌, inl, inr, Bool-cases,
  if◌then◌else◌, map_option, length, select, take, ℤ, take_of_length-le, arith, ◌+◌, add_time,
}
use tickr.Message.{Status}
use tickr.Postgres.Table.{Row, Db, find_row, id_in, ids_of}
use tickr.Postgres.Statements.{
  eligible, matches_type, claim_row, claim_sql, lease_expired, reclaim_row, reclaim_sql,
  mark_expired,
}
use tickr.Postgres.Session.{Driver, Session, Config}
use tickr.Postgres.Calls.{perform}
use tickr.Postgres.Rows.{UniqueIds, find_row-update, find_row_self, id_in-Stored}
use tickr.Postgres.Ordering.{id_in-select}
use tickr.Postgres.Claiming.{claim_sql_exact}
use tickr.Postgres.Lifecycle.Statements.{reclaim_picks-Stored, reclaim_sql-Onward, claim_sql-Onward}
use tickr.Postgres.Acking.{Verdict, call_of}
use tickr.Postgres.Acking.Fencing.{perform_stale}

pub reclaim_sql_exact :
    (now limit : ℕ) (db : Db) (i : ℕ)
    → UniqueIds db.messages
    → length (select (lease_expired now) db.messages) ≤ limit
    → find_row i (reclaim_sql now limit db).1.messages
      ≡ map_option
          (λ r. if lease_expired now r then reclaim_row now r else r)
          (find_row i db.messages)
unfolding reclaim_sql
reclaim_sql_exact now limit db i u room =
    find_row-update i _ (reclaim_row now) db.messages (λ r. unfold reclaim_row in refl)
    ∙ at_row (find_row i db.messages) refl
  where
    picks : List Row
    picks = take limit (select (lease_expired now) db.messages)

    exact :
        (r : Row)
        → find_row r.id db.messages ≡ some r
        → id_in (ids_of picks) r.id ≡ lease_expired now r
    exact r found = elim (Bool-cases (lease_expired now r)) [
      | inl e ↦
          rw (take_of_length-le limit (select (lease_expired now) db.messages) room)
            (id_in-select (lease_expired now) db.messages r found e ∙ sym e)
      | inr e ↦ elim (Bool-cases (id_in (ids_of picks) r.id)) [
        | inl t ↦ absurd (
            ground (
              arith,
              id_in-Stored db.messages picks (lease_expired now) r
                  (reclaim_picks-Stored now limit db.messages u) found t,
            ))
        | inr t ↦ t ∙ sym e
      ]
    ]

    at_row :
        (o : Option Row)
        → find_row i db.messages ≡ o
        → map_option (λ r. if id_in (ids_of picks) r.id then reclaim_row now r else r) o
          ≡ map_option (λ r. if lease_expired now r then reclaim_row now r else r) o
    at_row none e = refl
    at_row (some r) e = rw (exact r (find_row_self i db.messages r e))

-- A reclaimed row is eligible at once and from then on, in every shard's scan.
eligible-reclaimed :
    (now later : ℕ) (types : Option (List String)) (r : Row)
    → now ≤ later
    → matches_type types r.event_type ≡ true
    → eligible later types none (reclaim_row now r) ≡ true
unfolding eligible reclaim_row
eligible-reclaimed now later types r le h = ground arith

module _ (now later limit : ℕ) (types : Option (List String)) (batch : ℕ) (worker : String)
    (lease : ℤ) (db : Db) (i : ℕ) (r : Row) (le : now ≤ later) (u : UniqueIds db.messages)
    (found : find_row i db.messages ≡ some r) (dead : lease_expired now r ≡ true)
    (wanted : matches_type types r.event_type ≡ true)
    (room : length (select (lease_expired now) db.messages) ≤ limit)
    (room' : length (select (eligible later types none) (reclaim_sql now limit db).1.messages)
      ≤ batch) where
  -- The tables after the reclaim and the claim.
  abbrev recovered : Db
  recovered = (claim_sql later types batch worker lease none (reclaim_sql now limit db).1).1

  recovered-row :
      find_row i recovered.messages ≡ some (claim_row later worker lease (reclaim_row now r))
  recovered-row =
      let reclaimed : find_row i (reclaim_sql now limit db).1.messages ≡ some (reclaim_row now r) =
        reclaim_sql_exact now limit db i u room ∙ (rw (found, dead) refl) in
      claim_sql_exact later types batch worker lease none (reclaim_sql now limit db).1 i
        (reclaim_sql-Onward now db limit u).unique room'
      ∙ (rw (reclaimed, eligible-reclaimed now later types r le wanted) refl)

  -- A message that was HANDLING with its lease run out, after a reclaim and a claim over all shards at
  -- any later time, both with room and with nothing between them, is HANDLING again: under the new
  -- worker until `later` and the lease, with one more attempt, due since the reclaim, its error marked
  -- as an expired lease, and otherwise as it was.
  pub recovered_taken :
      find_row i recovered.messages
      ≡ some (record r {
        status = Status.handling;
        attempt = r.attempt + 1;
        claimed_by = some worker;
        claimed_until = some (add_time later lease);
        process_at = now;
        last_error = some (mark_expired r.last_error);
        updated_at = later;
      })
  unfolding claim_row reclaim_row
  recovered_taken = recovered-row

  recovered-UniqueIds : UniqueIds recovered.messages
  recovered-UniqueIds =
      (claim_sql-Onward later (reclaim_sql now limit db).1 types batch worker lease none
        (reclaim_sql-Onward now db limit u).unique).unique

  recovered-attempt : (x : Row) → find_row i recovered.messages ≡ some x → x.attempt ≢ r.attempt
  unfolding claim_row reclaim_row
  recovered-attempt x e = ground (arith, recovered-row)

  -- After a reclaim and a claim over all shards at any later time, both with room and with nothing
  -- between them, of a message whose lease had run out, no acknowledgement of the attempt before
  -- changes any message, at whatever time it comes and whatever becomes of its round trip: the tables
  -- keep the second worker's claim.
  pub recovered_fenced :
      (c : Config) (d : Driver) (v : Verdict) (s : Session)
      → s.db ≡ recovered
      → (perform c d (call_of d i r.attempt v) s).db.messages ≡ s.db.messages
  recovered_fenced c d v s e =
      perform_stale c d i r.attempt v s (rw e recovered-UniqueIds)
        (λ x f handling. recovered-attempt x (rw (← e) f))
