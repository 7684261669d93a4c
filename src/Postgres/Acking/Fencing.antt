-- ===== src/Postgres/Acking/Fencing.antt =====
-- Acknowledgements are fenced by the attempt number.
use tickr.Prelude.{
  ℕ, List, [], ◌∷◌, Bool, false, ◌≡◌, refl, ap, ◌∙◌, inl, inr, some_of, some, none, arith, ◌≢◌,
}
use tickr.Message.{Status}
use tickr.Postgres.Table.{Row, find_row, update_where}
use tickr.Postgres.Statements.{holds}
use tickr.Postgres.Session.{Driver, Session, Config}
use tickr.Postgres.Calls.{perform}
use tickr.Postgres.Rows.{UniqueIds}
use tickr.Postgres.Acking.{Verdict, call_of, verdict_row, verdict_statement-messages, perform_once}

-- No row of message `i` is HANDLING under the attempt.
abbrev pub IsStale : ℕ → ℕ → List Row → Type 0
IsStale i attempt ms =
    (r : Row) → find_row i ms ≡ some r → r.status ≡ Status.handling → r.attempt ≢ attempt

stale-holds-none :
    (i attempt : ℕ) (ms : List Row) → find_row i ms ≡ none → some_of (holds i attempt) ms ≡ false
unfolding find_row holds
stale-holds-none i attempt [] h = refl
stale-holds-none i attempt (r ∷ rs) h = ground (arith, stale-holds-none i attempt rs)

stale-holds :
    (i attempt : ℕ) (ms : List Row)
    → UniqueIds ms
    → IsStale i attempt ms
    → some_of (holds i attempt) ms ≡ false
unfolding find_row holds
stale-holds i attempt [] u h = refl
stale-holds i attempt (r ∷ rs) u h = ground (
  arith,
  h r,
  stale-holds-none i attempt rs,
  stale-holds i attempt rs u.1 (λ x e. h x (ground arith)),
)

update_where-none :
    (p : Row → Bool) (f : Row → Row) (ms : List Row)
    → some_of p ms ≡ false
    → update_where p f ms ≡ ms
unfolding update_where
update_where-none p f [] h = refl
update_where-none p f (r ∷ rs) h = ground (arith, update_where-none p f rs)

-- An acknowledgement (Succeed, Fail or ReleaseShutdown) of an attempt under which the message is
-- not, or no longer, HANDLING changes no message, whatever becomes of its round trip.
pub perform_stale :
    (c : Config) (d : Driver) (i attempt : ℕ) (v : Verdict) (s : Session)
    → UniqueIds s.db.messages
    → IsStale i attempt s.db.messages
    → (perform c d (call_of d i attempt v) s).db.messages ≡ s.db.messages
perform_stale c d i attempt v s u stale = elim (perform_once c d i attempt v s) [
  | inl e ↦ ap (λ db. db.messages) e
  | inr e ↦
      ap (λ db. db.messages) e
      ∙ (verdict_statement-messages c d i attempt v s.now s.db
          ∙ update_where-none (holds i attempt) (verdict_row s.now v) s.db.messages
              (stale-holds i attempt s.db.messages u stale))
]
