-- ===== src/Postgres/Calls/Runs.antt =====
-- Every run of calls stays within a preorder that the statements respect.
use tickr.Prelude.{List, [], ◌∷◌}
use tickr.Postgres.Table.{Db}
use tickr.Postgres.Session.{Driver, Session, Config}
use tickr.Postgres.Calls.{
  Call, enqueue, enqueue_batch, claim, succeed, batch_succeed, fail, release_shutdown, extend,
  history, list_dead, requeue, reclaim_expired, purge_terminal, purge_history, notify, sleep,
  perform, perform_all, Kind, kind_of,
}
use tickr.Postgres.Calls.Respects.{Respects}
use tickr.Postgres.Calls.Acks.{
  succeed-Within, batch_succeed-Within, fail-Within, release_shutdown-Within, extend-Within,
}
use tickr.Postgres.Calls.Consumer.{
  claim-Within, history-Within, list_dead-Within, requeue-Within, reclaim_expired-Within,
  purge_terminal-Within, purge_history-Within,
}
use tickr.Postgres.Calls.Producer.{enqueue-Within, notify-Within}
use tickr.Postgres.Calls.BatchProducer.{enqueue_batch-Within}

module _ (c : Config) (d : Driver) (R : Db → Db → Type 0) (on : Kind → Type 0)
    (h : Respects c on R) where
  pub perform-Within : (k : Call) → on (kind_of k) → (s : Session) → R s.db (perform c d k s).db
  unfolding perform
  perform-Within (enqueue p) q s = enqueue-Within c d R on h q p s
  perform-Within (enqueue_batch ps) q s = enqueue_batch-Within c d R on h q ps s
  perform-Within (claim p) q s = claim-Within c d R on h q p s
  perform-Within (succeed id attempt worker) q s = succeed-Within c d R on h q id attempt worker s
  perform-Within (batch_succeed ps) q s = batch_succeed-Within c d R on h q ps s
  perform-Within (fail p) q s = fail-Within c d R on h q p s
  perform-Within (release_shutdown id attempt worker reason) q s =
      release_shutdown-Within c d R on h q id attempt worker reason s
  perform-Within (extend id worker until) q s = extend-Within c d R on h q id worker until s
  perform-Within (history id) q s = history-Within c d R on h id s
  perform-Within (list_dead event_type after limit) q s =
      list_dead-Within c d R on h event_type after limit s
  perform-Within (requeue id at) q s = requeue-Within c d R on h q id at s
  perform-Within (reclaim_expired limit) q s = reclaim_expired-Within c d R on h q limit s
  perform-Within (purge_terminal before limit) q s =
      purge_terminal-Within c d R on h q before limit s
  perform-Within (purge_history before limit) q s = purge_history-Within c d R on h before limit s
  perform-Within (notify event_type) q s = notify-Within c d R on h event_type s
  perform-Within (sleep n) q s = h.refl_R s.db

  pub perform_all-Within :
      ((k : Kind) → on k) → (ks : List Call) (s : Session) → R s.db (perform_all c d ks s).db
  unfolding perform_all
  perform_all-Within q [] s = h.refl_R s.db
  perform_all-Within q (k ∷ ks) s =
      h.trans_R s.db (perform c d k s).db _ (perform-Within k (q (kind_of k)) s)
        (perform_all-Within q ks (perform c d k s))
