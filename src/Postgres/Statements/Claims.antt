-- ===== src/Postgres/Statements/Claims.antt =====
-- storage/postgres/postgres.go: claimSQL.
use tickr.Prelude.{
  ℕ, ◌+◌, String, List, map, Bool, true, ◌||◌, ◌&&◌, Option, none, some, ltb, leb, ◌==◌, take,
  select, ℤ, add_time,
}
use tickr.Message.{Status}
use tickr.Postgres.Table.{Row, Db, update_where, order_by, id_in, string_in, ids_of, is_pending}

-- The order of claimSQL: process_at, then id.
unfoldable pub due_before : Row → Row → Bool
due_before a b = ltb a.process_at b.process_at || (a.process_at == b.process_at && ltb a.id b.id)

-- A NULL argument matches every row.
abbrev pub matches_shard : Option ℕ → ℕ → Bool
matches_shard none s = true
matches_shard (some k) s = s == k

abbrev pub matches_type : Option (List String) → String → Bool
matches_type none t = true
matches_type (some names) t = string_in names t

unfoldable pub eligible : ℕ → Option (List String) → Option ℕ → Row → Bool
eligible now types shard r =
    is_pending r.status
    && (matches_shard shard r.shard && (leb r.process_at now && matches_type types r.event_type))

-- The rows that claimSQL locks.
unfoldable pub claim_picks : ℕ → Option (List String) → ℕ → Option ℕ → List Row → List Row
claim_picks now types batch shard ms =
    take batch (order_by due_before (select (eligible now types shard) ms))

unfoldable pub claim_row : ℕ → String → ℤ → Row → Row
claim_row now worker lease_ns r = record r {
  status = Status.handling;
  attempt = r.attempt + 1;
  claimed_by = some worker;
  claimed_until = some (add_time now lease_ns);
  updated_at = now;
}

unfoldable pub claim_sql : ℕ → Option (List String) → ℕ → String → ℤ → Option ℕ → Db → List Row × Db
claim_sql now types batch worker lease_ns shard db =
    let picks = claim_picks now types batch shard db.messages in
    (
      map (claim_row now worker lease_ns) picks,
      record db {
        messages =
            update_where (λ r. id_in (ids_of picks) r.id) (claim_row now worker lease_ns)
              db.messages;
      },
    )
