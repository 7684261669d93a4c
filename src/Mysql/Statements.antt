-- ===== src/Mysql/Statements.antt =====
-- The SQL statements of storage/mysql/mysql.go that are not those of the Postgres store.
use tickr.Prelude.{
  ℕ, ◌+◌, ◌-◌, String, List, [], ◌∷◌, ◌++◌, Bool, ◌&&◌, ◌||◌, not, Option, none, some, ltb,
  if◌then◌else◌, take, select, length, str_eq, ℤ, false, leb, ◌==◌, some_of, is_some,
}
use tickr.Message.{Status}
use tickr.Postgres.Table.{
  Row, Db, update_where, delete_where, order_by, id_in, ids_of, nullif, max_seq, is_dead,
  is_pending, is_handling, find_row,
}
use tickr.Mysql.Session.{Ids}
use tickr.Postgres.Statements.{
  entry, due_before, matches_shard, claim_row, extend_row, lease_expired, finished_before,
  completed_first, Insert, inserted, skipped, id_taken,
}

-- appendHistory; the worker is written as it is, also if it is empty.
unfoldable pub append_history_sql : ℕ → ℕ → Status → Status → ℕ → String → String → Db → Db
append_history_sql now i from to attempt error worker db = record db {
  history =
      db.history
      ++ entry now i (max_seq i db.history + 1) (some from) to attempt (nullif error) (some worker)
        ∷ [];
}

-- UPDATE ... WHERE id IN ids, of Claim
unfoldable pub claim_update_sql : ℕ → String → ℤ → List ℕ → Db → Db
claim_update_sql now worker lease ids db = record db {
  messages = update_where (λ r. id_in ids r.id) (claim_row now worker lease) db.messages;
}

unfoldable pub claim_fetch_sql : List ℕ → Db → List Row
claim_fetch_sql ids db = select (λ r. id_in ids r.id) db.messages

-- The SET clauses of Succeed and BatchSucceed, and of Fail. The claim stays on a row that ends.
unfoldable pub succeed_row : ℕ → Row → Row
succeed_row now r = record r { status = Status.success; completed_at = some now; updated_at = now }

unfoldable pub dead_row : ℕ → String → Row → Row
dead_row now error r = record r {
  status = Status.dead;
  completed_at = some now;
  last_error = some error;
  updated_at = now;
}

unfoldable pub retry_row : ℕ → String → ℕ → Row → Row
retry_row now error next r = record r {
  status = Status.retrying;
  process_at = next;
  last_error = some error;
  claimed_by = none;
  claimed_until = none;
  updated_at = now;
}

-- SET runs from left to right, so that `status` reads the attempt before it is lowered.
unfoldable pub release_row : ℕ → Row → Row
release_row now r = record r {
  status = if ltb 1 r.attempt then Status.retrying else Status.created;
  attempt = r.attempt - 1;
  claimed_by = none;
  claimed_until = none;
  updated_at = now;
}

unfoldable pub requeue_row : ℕ → ℕ → Row → Row
requeue_row now next r = record r {
  status = Status.created;
  attempt = 0;
  claimed_by = none;
  claimed_until = none;
  completed_at = none;
  process_at = next;
  last_error = none;
  updated_at = now;
}

-- An UPDATE of the messages alone.
abbrev pub update_sql : (Row → Bool) → (Row → Row) → Db → Db
update_sql p f db = record db { messages = update_where p f db.messages }

-- COALESCE(last_error, 'lease expired')
abbrev or_expired : Option String → Option String
or_expired none = some "lease expired"
or_expired (some e) = some e

unfoldable pub reclaim_row : ℕ → Row → Row
reclaim_row now r = record r {
  status = Status.retrying;
  process_at = now;
  claimed_by = none;
  claimed_until = none;
  last_error = or_expired r.last_error;
  updated_at = now;
}

-- LIMIT takes rows in the table's order.
unfoldable pub reclaim_sql : ℕ → ℕ → Db → ℕ × Db
reclaim_sql now limit db =
    let picks = take limit (select (lease_expired now) db.messages) in
    (length picks, update_sql (λ r. id_in (ids_of picks) r.id) (reclaim_row now) db)

unfoldable pub purge_sql : ℕ → ℕ → Db → ℕ × Db
purge_sql before limit db =
    let picks = take limit (select (finished_before before) db.messages) in
    (
      length picks,
      record db { messages = delete_where (λ r. id_in (ids_of picks) r.id) db.messages },
    )

-- completed_at >= after
abbrev not_before : ℕ → Option ℕ → Bool
not_before after none = false
not_before after (some t) = not (ltb t after)

module _ (d : Ids) where
  -- A column that may be NULL.
  abbrev pub opt_same : String → Option String → Bool
  opt_same t none = false
  opt_same t (some v) = d.same_text v t

  -- selectClaimIDs
  unfoldable pub claimable : ℕ → List String → Option ℕ → Row → Bool
  claimable now types shard r =
      is_pending r.status
      && (matches_shard shard r.shard
          && (leb r.process_at now && some_of (λ t. d.same_text t r.event_type) types))

  unfoldable pub select_claim_ids_sql : ℕ → List String → ℕ → Option ℕ → Db → List ℕ
  unfolding claimable
  select_claim_ids_sql now types batch shard db =
      ids_of (take batch (order_by due_before (select (claimable now types shard) db.messages)))

  -- The WHERE clause of Succeed, Fail, ReleaseShutdown and Extend.
  unfoldable pub held_by : ℕ → String → Row → Bool
  held_by i worker r = r.id == i && (is_handling r.status && opt_same worker r.claimed_by)

  unfoldable pub extend_held_sql : ℕ → ℕ → String → ℕ → Db → ℕ × Db
  unfolding held_by
  extend_held_sql now i worker until db = (
    length (select (held_by i worker) db.messages),
    update_sql (held_by i worker) (extend_row now until) db,
  )

  -- The unique key of the event type and the idempotency key, which is NULL for none.
  abbrev pub clashes : Option String → Row → Row → Bool
  clashes none new r = false
  clashes (some key) new r =
      opt_same key r.idempotency_key && d.same_text r.event_type new.event_type

  unfoldable pub insert_sql : Row → Db → Insert × Db
  insert_sql new db =
      if some_of (clashes new.idempotency_key new) db.messages
      then (skipped, db)
      else if is_some (find_row new.id db.messages)
      then (id_taken, db)
      else (inserted new, record db { messages = db.messages ++ new ∷ [] })

  unfoldable pub find_by_key_sql : String → String → List Row → Option Row
  find_by_key_sql event_type key [] = none
  find_by_key_sql event_type key (r ∷ rs) =
      let rest = find_by_key_sql event_type key rs in
      if d.same_text r.event_type event_type && opt_same key r.idempotency_key then some r else rest

  -- The two queries of ListDead.
  unfoldable pub list_dead_sql : String → ℕ → ℕ → List Row → List Row
  list_dead_sql event_type after limit ms =
      take limit (order_by (λ a b. completed_first b a) (select listed ms))
    where
      listed : Row → Bool
      listed r =
          is_dead r.status
          && ((str_eq event_type "" || d.same_text r.event_type event_type)
              && not_before after r.completed_at)
