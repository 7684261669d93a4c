-- ===== src/Mysql/Admin.antt =====
-- storage/mysql/mysql.go: History, ListDead, Requeue, ReclaimExpired, PurgeTerminal and PurgeHistory.
use tickr.Prelude.{ℕ, String, List, map, ℤ, or_default}
use tickr.Message.{Status, Transition, InboundMessage}
use tickr.Postgres.Table.{HistoryRow}
use tickr.Postgres.Statements.{is_dead_letter_row, purge_history_sql}
use tickr.Postgres.Admin.{history_sql}
use tickr.Postgres.Session.{Action, ◌>>=◌, ◌>>◌, pure, round_trip, context, text_of}
use tickr.Mysql.Session.{Ids, exec, transaction, scan_message}
use tickr.Mysql.Statements.{requeue_row, update_sql, reclaim_sql, purge_sql, list_dead_sql}
use tickr.Mysql.Claim.{append_history}
use tickr.Mysql.Ack.{bare, bare_commit}

module _ (d : Ids) where
  unfoldable pub scan_transition : HistoryRow → Transition
  unfolding text_of
  scan_transition h = record {
    message_id = d.text h.message_id;
    seq = h.seq;
    from = h.from_status;
    to = h.to_status;
    attempt = h.attempt;
    error = text_of h.error;
    worker_id = text_of h.worker_id;
    at = h.at;
  }

  unfoldable pub history : String → Action (List Transition)
  unfolding scan_transition
  history id = do
    hs ←
        context "tickr/mysql: history"
          (round_trip (λ now db. (history_sql (d.code id) db.history, db)))
    pure (map scan_transition hs)

  unfoldable pub list_dead : String → ℕ → ℤ → Action (List InboundMessage)
  unfolding scan_message
  list_dead event_type after limit = do
    rows ← context "tickr/mysql: list dead" (
        round_trip
          (λ now db. (list_dead_sql d event_type after (or_default limit 50) db.messages, db)))
    pure (map (scan_message d) rows)

  -- A message that is not DEAD is left as it is, without an error.
  unfoldable pub requeue : String → ℕ → Action (Unit {0})
  unfolding append_history transaction
  requeue id process_at = transaction bare bare_commit (
      context "tickr/mysql: requeue"
        (exec (λ now. update_sql (is_dead_letter_row (d.code id)) (requeue_row now process_at)))
      >> append_history (d.code id) Status.dead Status.created 0 "admin requeue" "")

unfoldable pub reclaim_expired : ℤ → Action ℕ
reclaim_expired limit =
    context "tickr/mysql: reclaim" (round_trip (λ now. reclaim_sql now (or_default limit 500)))

unfoldable pub purge_terminal : ℕ → ℤ → Action ℕ
purge_terminal before limit =
    context "tickr/mysql: purge" (round_trip (λ now. purge_sql before (or_default limit 5000)))

unfoldable pub purge_history : ℕ → ℤ → Action ℕ
purge_history before limit =
    context "tickr/mysql: purge history"
      (round_trip (λ now. purge_history_sql before (or_default limit 5000)))
