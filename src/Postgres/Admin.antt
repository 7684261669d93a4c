-- ===== src/Postgres/Admin.antt =====
-- storage/postgres/postgres.go: History, ListDead, Requeue, ReclaimExpired, PurgeTerminal,
-- PurgeHistory and Stats.
use tickr.Prelude.{
  ℕ, String, List, map, Option, some, ltb, ◌==◌, if◌then◌else◌, select, ℤ, or_default,
}
use tickr.Errors.{text}
use tickr.Message.{Status, Transition, InboundMessage}
use tickr.Postgres.Table.{HistoryRow, order_by}
use tickr.Postgres.Statements.{
  append_history_sql, requeue_sql, reclaim_sql, purge_sql, purge_history_sql, list_dead_sql,
}
use tickr.Postgres.Session.{
  Driver, Action, ◌>>=◌, pure, raise, round_trip, context, with_id, text_of, scan_message,
}

-- historySQL
unfoldable pub history_sql : ℕ → List HistoryRow → List HistoryRow
history_sql i hs = order_by (λ a b. ltb a.seq b.seq) (select (λ h. h.message_id == i) hs)

unfoldable pub scan_transition : Driver → HistoryRow → Transition
unfolding text_of
scan_transition d h = record {
  message_id = d.format h.message_id;
  seq = h.seq;
  from = h.from_status;
  to = h.to_status;
  attempt = h.attempt;
  error = text_of h.error;
  worker_id = text_of h.worker_id;
  at = h.at;
}

unfoldable pub history : Driver → String → Action (List Transition)
history d id = with_id d "tickr/postgres: history: bad id" id λ i. do
  hs ←
      context "tickr/postgres: history query"
        (round_trip (λ now db. (history_sql i db.history, db)))
  pure (map (scan_transition d) hs)

unfoldable pub list_dead : Driver → String → ℕ → ℤ → Action (List InboundMessage)
list_dead d event_type after limit = do
  rows ← context "tickr/postgres: list dead" (
      round_trip
        (λ now db. (list_dead_sql event_type after (or_default limit 100) db.messages, db)))
  pure (map (scan_message d) rows)

-- appendHistory
unfoldable pub append_history :
    Driver → String → Option Status → Status → ℕ → String → String → Action (Unit {0})
append_history d id from to attempt error worker =
    with_id d "tickr/postgres: history: bad id" id λ i.
      context "tickr/postgres: history insert"
        (round_trip (λ now db. (tt, append_history_sql now i from to attempt error worker db)))

-- The end of `Requeue`, by the number of rows affected.
abbrev pub after_requeue : Driver → String → ℕ → Action (Unit {0})
after_requeue d id affected =
    if affected == 0
    then raise (text "tickr/postgres: requeue: message not found or not DEAD")
    else append_history d id (some Status.dead) Status.created 0 "manual requeue" ""

-- A time of zero stands for the caller's clock.
unfoldable pub requeue : Driver → String → ℕ → Action (Unit {0})
requeue d id process_at = with_id d "tickr/postgres: requeue: bad id" id λ i. do
  affected ←
      context "tickr/postgres: requeue"
        (round_trip (λ now. requeue_sql now i (if process_at == 0 then now else process_at)))
  after_requeue d id affected

unfoldable pub reclaim_expired : ℤ → Action ℕ
reclaim_expired limit =
    context "tickr/postgres: reclaim" (round_trip (λ now. reclaim_sql now (or_default limit 500)))

unfoldable pub purge_terminal : ℕ → ℤ → Action ℕ
purge_terminal before limit =
    context "tickr/postgres: purge" (round_trip (λ now. purge_sql before (or_default limit 5000)))

unfoldable pub purge_history : ℕ → ℤ → Action ℕ
purge_history before limit =
    context "tickr/postgres: purge history"
      (round_trip (λ now. purge_history_sql before (or_default limit 5000)))
