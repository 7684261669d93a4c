-- ===== src/Postgres/Adapter.antt =====
-- storage/postgres/postgres.go: Store as an implementation of the interfaces Storage, BatchAcker,
-- HistoryPurger and Notifier (storage.go, notifier.go).
use tickr.Prelude.{String, Bool, false, some, pos}
use tickr.Errors.{Error}
use tickr.Storage.{Storage}
use tickr.Postgres.Session.{Driver, Session, Config, Result, ok, err}
use tickr.Postgres.Enqueue.{error_of}
use tickr.Postgres.Ack
use tickr.Postgres.Claim
use tickr.Postgres.Enqueue
use tickr.Postgres.EnqueueBatch
use tickr.Postgres.Admin

abbrev pub errors : {A : Type 0} → Result A × Session → Error × Session
errors (r, s) = (error_of r, s)

abbrev pub value_or : {A : Type 0} → A → Result A → A
value_or a (ok x) = x
value_or a (err e) = a

abbrev pub values : {A : Type 0} → A → Result A × Session → (A × Error) × Session
values a (r, s) = ((value_or a r, error_of r), s)

-- The advisory lock of TryLeaderLock and its release are arguments.
module _ (c : Config) (d : Driver) (lock : String → Session → (Bool × Error) × Session)
    (unlock : String → Session → Session) where
  abbrev pub adapter : Storage Session
  adapter = record {
    clock = λ s. s.now;
    enqueue = λ p s. Enqueue.enqueue c d p s;
    enqueue_batch = λ ps s. EnqueueBatch.enqueue_batch c d ps s;
    claim = λ p s. Claim.claim d c p s;
    succeed = λ id attempt worker s. errors (Ack.succeed c d id attempt worker s);
    fail = λ p s. errors (Ack.fail c d p s);
    release_shutdown =
        λ id attempt worker reason s. errors (Ack.release_shutdown c d id attempt worker reason s);
    extend = λ id worker until s. values false (Ack.extend d id worker until s);
    reclaim_expired = λ limit s. values 0 (Admin.reclaim_expired (pos limit) s);
    purge_terminal = λ before limit s. values 0 (Admin.purge_terminal before (pos limit) s);
    try_leader_lock = lock;
    unlock = unlock;
    batch_succeed = some (λ ps s. errors (Ack.batch_succeed c d ps s));
    purge_history = some (λ before limit s. values 0 (Admin.purge_history before (pos limit) s));
    notify = some (λ event_type s. errors (Enqueue.notify event_type s));
  }
