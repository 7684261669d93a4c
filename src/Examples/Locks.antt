-- ===== src/Examples/Locks.antt =====
-- The theorem on the leader locks of the CockroachDB store, at three workers.
use tickr.Prelude.{List, [], ◌∷◌, false, ◌≡◌, refl, arith}
use tickr.Postgres.Session.{Wire}
use tickr.Cockroach.{Event, Clocked, after, after_all, try_leader_lock}
use tickr.Cockroach.Exclusion.{after_all-try_leader_lock}

-- The lock of a worker that crashed has run out.
abbrev expired : Clocked
expired = record {
  now = 100;
  locks = record { key = "reclaim"; holder = "a"; expires_at = 99 } ∷ [];
}

-- What comes after the second worker has the lock.
abbrev meanwhile : List Event
meanwhile =
    Event.wait 7
    ∷ Event.release Wire.made "reclaim" "a"
    ∷ Event.attempt Wire.cut "reclaim" "c"
    ∷ Event.wait 59_000_000_000
    ∷ []

abbrev later : Clocked
later = after_all meanwhile (after (Event.attempt Wire.made "reclaim" "b") expired)

after_all-try_leader_lock_example :
    (try_leader_lock Wire.made later.now "reclaim" "c" later.locks).0.0 ≡ false
unfolding after after_all try_leader_lock
after_all-try_leader_lock_example =
    after_all-try_leader_lock Wire.made "reclaim" "b" expired meanwhile Wire.made "c" refl
      (refl, (refl, (refl, (refl, tt)))) (omega arith)
