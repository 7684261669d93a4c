-- ===== src/Postgres/Statements/Upkeep.antt =====
-- storage/postgres/postgres.go: the statements of the administration, the reclaimer and the purges.
use Prim.Native.String.{◌++◌ as str_append}
use tickr.Prelude.{
  ℕ, String, List, Bool, ◌||◌, ◌&&◌, Option, none, some, ltb, ◌==◌, take, some_of, select, length,
  str_eq,
}
use tickr.Message.{Status}
use tickr.Postgres.Table.{
  Row, HistoryRow, Db, update_where, delete_where, order_by, id_in, ids_of, lt_opt, opt_lt,
  is_handling, is_dead, is_finished,
}

unfoldable pub is_dead_letter_row : ℕ → Row → Bool
is_dead_letter_row i r = r.id == i && is_dead r.status

unfoldable pub requeue_row : ℕ → ℕ → Row → Row
requeue_row now next r = record r {
  status = Status.created;
  attempt = 0;
  process_at = next;
  completed_at = none;
  last_error = none;
  updated_at = now;
}

-- requeueSQL, with the number of rows affected
unfoldable pub requeue_sql : ℕ → ℕ → ℕ → Db → ℕ × Db
requeue_sql now i next db = (
  length (select (is_dead_letter_row i) db.messages),
  record db { messages = update_where (is_dead_letter_row i) (requeue_row now next) db.messages },
)

unfoldable pub lease_expired : ℕ → Row → Bool
lease_expired now r = is_handling r.status && lt_opt r.claimed_until now

-- COALESCE(last_error, '') || ' [lease expired]'
unfoldable pub mark_expired : Option String → String
mark_expired none = " [lease expired]"
mark_expired (some e) = str_append e " [lease expired]"

unfoldable pub reclaim_row : ℕ → Row → Row
reclaim_row now r = record r {
  status = Status.retrying;
  claimed_until = none;
  claimed_by = none;
  last_error = some (mark_expired r.last_error);
  process_at = now;
  updated_at = now;
}

-- reclaimSQL, with the number of rows affected; the LIMIT takes rows in the table's order
unfoldable pub reclaim_sql : ℕ → ℕ → Db → ℕ × Db
reclaim_sql now limit db =
    let picks = take limit (select (lease_expired now) db.messages) in
    (
      length picks,
      record db {
        messages = update_where (λ r. id_in (ids_of picks) r.id) (reclaim_row now) db.messages;
      },
    )

unfoldable pub finished_before : ℕ → Row → Bool
finished_before before r = is_finished r.status && lt_opt r.completed_at before

unfoldable pub completed_first : Row → Row → Bool
completed_first a b = opt_lt a.completed_at b.completed_at

unfoldable pub purge_picks : ℕ → ℕ → List Row → List Row
purge_picks before limit ms =
    take limit (order_by completed_first (select (finished_before before) ms))

-- purgeSQL, with the number of rows affected
unfoldable pub purge_sql : ℕ → ℕ → Db → ℕ × Db
purge_sql before limit db =
    let picks = purge_picks before limit db.messages in
    (
      length picks,
      record db { messages = delete_where (λ r. id_in (ids_of picks) r.id) db.messages },
    )

-- (message_id, seq) IN ...
abbrev pub picked : List HistoryRow → HistoryRow → Bool
picked ps h = some_of (λ p. p.message_id == h.message_id && p.seq == h.seq) ps

-- purgeHistorySQL, with the number of rows affected
unfoldable pub purge_history_sql : ℕ → ℕ → Db → ℕ × Db
purge_history_sql before limit db =
    let picks =
      take limit (order_by (λ a b. ltb a.at b.at) (select (λ h. ltb h.at before) db.history)) in
    (length picks, record db { history = delete_where (picked picks) db.history })

-- listDeadSQL
unfoldable pub list_dead_sql : String → ℕ → ℕ → List Row → List Row
list_dead_sql event_type after limit ms =
    take limit (order_by (λ a b. completed_first b a) (select listed ms))
  where
    listed : Row → Bool
    listed r =
        is_dead r.status
        && ((str_eq event_type "" || str_eq r.event_type event_type)
            && opt_lt (some after) r.completed_at)
