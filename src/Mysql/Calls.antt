-- ===== src/Mysql/Calls.antt =====
-- The methods of the MySQL store as calls that follow one another on a session.
use tickr.Prelude.{◌+◌, List, [], ◌∷◌}
use tickr.Postgres.Session.{Session}
use tickr.Postgres.Calls.{
  Call, enqueue, enqueue_batch, claim, succeed, batch_succeed, fail, release_shutdown, extend,
  history, list_dead, requeue, reclaim_expired, purge_terminal, purge_history, notify, sleep,
}
use tickr.Mysql.Session.{Ids}
use tickr.Mysql.Enqueue
use tickr.Mysql.Claim
use tickr.Mysql.Ack
use tickr.Mysql.Admin

module _ (d : Ids) where
  -- The session after a call; results are dropped. The store is no Notifier.
  unfoldable pub perform : Call → Session → Session
  perform (enqueue p) s = (Enqueue.enqueue d p s).1
  perform (enqueue_batch ps) s = (Enqueue.enqueue_batch d ps s).1
  perform (claim p) s = (Claim.claim d p s).1
  perform (succeed id attempt worker) s = (Ack.succeed d id attempt worker s).1
  perform (batch_succeed ps) s = (Ack.batch_succeed d ps s).1
  perform (fail p) s = (Ack.fail d p s).1
  perform (release_shutdown id attempt worker reason) s =
      (Ack.release_shutdown d id attempt worker reason s).1
  perform (extend id worker until) s = (Ack.extend d id worker until s).1
  perform (history id) s = (Admin.history d id s).1
  perform (list_dead event_type after limit) s = (Admin.list_dead d event_type after limit s).1
  perform (requeue id at) s = (Admin.requeue d id at s).1
  perform (reclaim_expired limit) s = (Admin.reclaim_expired limit s).1
  perform (purge_terminal before limit) s = (Admin.purge_terminal before limit s).1
  perform (purge_history before limit) s = (Admin.purge_history before limit s).1
  perform (notify event_type) s = s
  perform (sleep n) s = record s { now = s.now + n }

  unfoldable pub perform_all : List Call → Session → Session
  unfolding perform
  perform_all [] s = s
  perform_all (k ∷ ks) s = perform_all ks (perform k s)
