-- ===== src/Worker/Laws.antt =====
-- What the turns of the reclaimer and the janitor come to (worker.go).
use tickr.Prelude.{◌≤◌, ◌*◌, pos, ◌≡◌, arith}
use tickr.Worker.{Retention, day, success_age, dead_age, or_none, history_age}

-- With Retention.History left at 0, history is kept at least as long as the messages of either
-- final status, and at least 30 days; a Dead age that is negative counts as 0.
history_age-le :
    (r : Retention)
    → r.history ≡ pos 0
    → (success_age r ≤ or_none (history_age r))
      × (or_none (dead_age r) ≤ or_none (history_age r))
      × (30 * day ≤ or_none (history_age r))
unfolding history_age
history_age-le r e = rw e (omega arith, omega arith, omega arith)
