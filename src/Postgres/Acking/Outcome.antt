-- ===== src/Postgres/Acking/Outcome.antt =====
-- What Succeed, Fail and ReleaseShutdown should make of a row, column by column, and that they do
-- (storage/postgres/postgres.go).
use tickr.Prelude.{
  ℕ, ◌-◌, [], Bool, ◌&&◌, ◌==◌, some, none, ◌≡◌, refl, ap, ◌∙◌, if◌then◌else◌, map_option, Option,
}
use tickr.Message.{Status}
use tickr.Postgres.Table.{Row, find_row, is_handling}
use tickr.Postgres.Statements.{holds, succeed_row, retry_row, dead_row, release_row}
use tickr.Postgres.Session.{Driver, Session, Config}
use tickr.Postgres.Calls.{perform}
use tickr.Postgres.Acking.{
  Verdict, done, retried, buried, released, call_of, verdict_row, perform-verdict_row,
}

-- The attempt of the message that is running.
abbrev pub is_running : ℕ → ℕ → Row → Bool
is_running i attempt r = r.id == i && (is_handling r.status && r.attempt == attempt)

-- What does not depend on the verdict: nobody holds the row.
abbrev settled : ℕ → Status → Row → Row
settled now status r = record r {
  status = status;
  claimed_by = none;
  claimed_until = none;
  updated_at = now;
}

-- The row that a verdict asks for.
abbrev pub outcome_row : ℕ → Verdict → Row → Row
outcome_row now (done worker) r = record (settled now Status.success r) {
  last_error = none;
  completed_at = some now;
}
outcome_row now (retried worker error next) r = record (settled now Status.retrying r) {
  last_error = some error;
  process_at = next;
}
outcome_row now (buried worker error) r = record (settled now Status.dead r) {
  last_error = some error;
  completed_at = some now;
}
outcome_row now (released worker reason) r = record (settled now Status.retrying r) {
  last_error = some reason;
  process_at = now;
  attempt = r.attempt - 1;
}

-- The row after a verdict on one attempt.
abbrev pub after_verdict : ℕ → ℕ → ℕ → Verdict → Row → Row
after_verdict now i attempt v r = if is_running i attempt r then outcome_row now v r else r

verdict_row-outcome_row :
    (now : ℕ) (v : Verdict) (r : Row) → verdict_row now v r ≡ outcome_row now v r
unfolding succeed_row retry_row dead_row release_row
verdict_row-outcome_row now (done worker) r = refl
verdict_row-outcome_row now (retried worker error next) r = refl
verdict_row-outcome_row now (buried worker error) r = refl
verdict_row-outcome_row now (released worker reason) r = refl

pub holds-after_verdict :
    (now i attempt : ℕ) (v : Verdict) (r : Row)
    → (if holds i attempt r then verdict_row now v r else r) ≡ after_verdict now i attempt v r
unfolding holds
holds-after_verdict now i attempt v r =
    ap (λ x. if is_running i attempt r then x else r) (verdict_row-outcome_row now v r)

pub map_option-cong :
    (f h : Row → Row) (o : Option Row) → ((r : Row) → f r ≡ h r) → map_option f o ≡ map_option h o
map_option-cong f h none k = refl
map_option-cong f h (some r) k = ap some (k r)

-- With no failure foretold, Succeed, Fail (both ways) and ReleaseShutdown, with and without history,
-- make of the message that is HANDLING under the attempt what `outcome_row` says, column by column:
-- SUCCESS with its completion time and no error; RETRYING at the given time with the error; DEAD with
-- its completion time and the error; or, on release, RETRYING at once with one attempt less and the
-- reason, also if it was never tried before. The claim is lifted each time, whoever holds it. Every
-- other message stays as it is.
pub perform-after_verdict :
    (c : Config) (d : Driver) (i attempt : ℕ) (v : Verdict) (s : Session) (j : ℕ)
    → s.wires ≡ []
    → find_row j (perform c d (call_of d i attempt v) s).db.messages
      ≡ map_option (after_verdict s.now i attempt v) (find_row j s.db.messages)
perform-after_verdict c d i attempt v s j quiet =
    perform-verdict_row c d i attempt v s j quiet
    ∙ map_option-cong _ _ (find_row j s.db.messages) (holds-after_verdict s.now i attempt v)
