-- ===== src/Worker.antt =====
-- worker.go: one turn of the reclaimer and of the janitor, under the leader lock. The loops
-- around them wait for a ticker. Log lines are left out.
pub mod Laws
pub mod Purge
use tickr.Prelude.{
  ℕ, zero, suc, ◌-◌, ◌*◌, String, List, [], ◌∷◌, ◌++◌, Bool, true, false, Option, none, some, ℤ,
  pos, negsuc, ltb, if◌then◌else◌, or_default, max,
}
use tickr.Errors.{Err, Error}
use tickr.Storage.{Storage, ErrorKind, lease_reclaimed}
use tickr.Engine.{World}

-- Ages in nanoseconds, and the size of a purge.
pub record Retention : Type 0 where
  pub success : ℤ
  pub dead : ℤ
  pub history : ℤ
  pub purge_batch : ℤ

abbrev pub day : ℕ
day = 24 * 3_600_000_000_000

unfoldable pub success_age : Retention → ℕ
success_age r = or_default r.success day

-- A negative age is never reached.
abbrev age_or : ℕ → ℤ → Option ℕ
age_or d (pos zero) = some d
age_or d (pos (suc n)) = some (suc n)
age_or d (negsuc n) = none

unfoldable pub dead_age : Retention → Option ℕ
dead_age r = age_or (30 * day) r.dead

abbrev pub or_none : Option ℕ → ℕ
or_none none = 0
or_none (some n) = n

-- The default age of history is the longest of the two ages and 30 days.
unfoldable pub history_age : Retention → Option ℕ
unfolding success_age dead_age
history_age r = age_or (max (max (success_age r) (or_none (dead_age r))) (30 * day)) r.history

module _ {S : Type 0} (storage : Storage S) where
  abbrev pub alert : ErrorKind → Err → World S → World S
  alert kind e w = record w {
    alerts =
        w.alerts
        ++ record { kind = kind; event_type = ""; message_id = ""; attempt = 0; err = e } ∷ [];
  }

  abbrev pub released : String → World S → World S
  released key w = record w { store = storage.unlock key w.store }

  -- What follows TryLeaderLock; `defer unlock()` comes after the work.
  unfoldable pub as_leader :
      String → ErrorKind → (World S → World S) → Bool × Error → World S → World S
  as_leader key kind work (acquired, some e) w = alert kind e w
  as_leader key kind work (false, none) w = w
  as_leader key kind work (true, none) w = released key (work w)

  unfoldable pub under_lock : String → ErrorKind → (World S → World S) → World S → World S
  unfolding as_leader
  under_lock key kind work w =
      let (reply, s) = storage.try_leader_lock key w.store in
      as_leader key kind work reply (record w { store = s })

  unfoldable pub after_reclaim : ℕ × Error → World S → World S
  after_reclaim (n, some e) w = alert ErrorKind.reclaimer e w
  after_reclaim (zero, none) w = w
  after_reclaim (suc n, none) w = record w { metrics = w.metrics ++ lease_reclaimed (suc n) ∷ [] }

  unfoldable pub reclaim : World S → World S
  unfolding after_reclaim
  reclaim w =
      let (reply, s) = storage.reclaim_expired 500 w.store in
      after_reclaim reply (record w { store = s })

  unfoldable pub try_reclaim : World S → World S
  unfolding under_lock reclaim
  try_reclaim w = under_lock "tickr.reclaimer" ErrorKind.reclaimer reclaim w

  -- After one round of a purge: whether the turn goes on, and `again` for the next round.
  unfoldable pub after_round : ℕ → ℕ × Error → World S → Bool × World S → Bool × World S
  after_round batch (n, some e) w again = (true, alert ErrorKind.janitor e w)
  after_round batch (n, none) w again = if ltb n batch then (true, w) else again

  -- A purge in rounds; the context ends in the wait after the last of them.
  unfoldable pub purge_rounds : (S → (ℕ × Error) × S) → ℕ → ℕ → World S → Bool × World S
  purge_rounds purge batch zero w =
      let (reply, s) = purge w.store in
      let w' = record w { store = s } in after_round batch reply w' (false, w')
  purge_rounds purge batch (suc k) w =
      let (reply, s) = purge w.store in
      let w' = record w { store = s } in after_round batch reply w' (purge_rounds purge batch k w')

  -- time.Now().Add(-age), which no stored time is before when it is cut at 0
  abbrev pub cutoff : ℕ → World S → ℕ
  cutoff age w = storage.clock w.store - age

  abbrev aged_purge : Option ℕ → Option (ℕ → ℕ → S → (ℕ × Error) × S) → ℕ → ℕ → World S → World S
  aged_purge none p batch rounds w = w
  aged_purge (some age) none batch rounds w = w
  aged_purge (some age) (some purge) batch rounds w =
      (purge_rounds (purge (cutoff age w) batch) batch rounds w).1

  -- purgeHistory
  unfoldable pub purge_history : Retention → ℕ → ℕ → World S → World S
  unfolding history_age purge_rounds
  purge_history r batch rounds w = aged_purge (history_age r) storage.purge_history batch rounds w

  abbrev dead_rounds : Option ℕ → ℕ → ℕ → World S → Bool × World S
  dead_rounds none batch rounds w = (true, w)
  dead_rounds (some age) batch rounds w =
      purge_rounds (storage.purge_terminal (cutoff age w) batch) batch rounds w

  abbrev continue : (World S → Bool × World S) → Bool × World S → Bool × World S
  continue next (true, w) = next w
  continue next (false, w) = (false, w)

  -- The work of the janitor: both purges of messages and that of history. The last three numbers
  -- are the waits that each of the three can make before the context ends.
  unfoldable pub purge_all : Retention → ℕ → ℕ → ℕ → World S → World S
  unfolding purge_history
  purge_all r i j k w =
      let batch = or_default r.purge_batch 5000 in
      (continue (λ w''. (true, purge_history r batch k w''))
        (continue (dead_rounds (dead_age r) batch j)
          (purge_rounds (storage.purge_terminal (cutoff (success_age r) w) batch) batch i w))).1

  unfoldable pub try_purge : Retention → ℕ → ℕ → ℕ → World S → World S
  unfolding under_lock purge_all
  try_purge r i j k w = under_lock "tickr.janitor" ErrorKind.janitor (purge_all r i j k) w
