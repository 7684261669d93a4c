-- ===== src/Engine/Batch/Policy.antt =====
-- The documented policy over a whole batch: runBatchHandler on the Postgres store (engine.go).
use tickr.Prelude.{ℕ, String, [], ◌∷◌, Bool, ◌&&◌, ◌≡◌, refl, ap, ◌∙◌, map_option}
use tickr.Errors.{Error}
use tickr.Message.{InboundMessage}
use tickr.Registry.{BatchHandler, HandlerConfig}
use tickr.Engine.{World, Engine, recovered}
use tickr.Engine.Flusher.{settle}
use tickr.Engine.Decision.{IsOnPostgres}
use tickr.Engine.Decision.Policy.{decision, verdict_of-decision}
use tickr.Engine.Batch.{run_batch_handler}
use tickr.Engine.Batch.Acks.{Numbered, messages_of, IsNamed, judged}
use tickr.Engine.Batch.Rows.{run_batch_handler-rows}
use tickr.Postgres.Table.{Row, find_row}
use tickr.Postgres.Session.{Driver, Session, Config}
use tickr.Postgres.Acking.{Verdict}
use tickr.Postgres.Acking.Outcome.{after_verdict, holds-after_verdict, map_option-cong}

-- A row after the verdicts on the messages of a batch, in their order.
abbrev pub after_verdicts : ℕ → (InboundMessage → Verdict) → Numbered → Row → Row
after_verdicts now v [] r = r
after_verdicts now v ((i, m) ∷ xs) r =
    after_verdicts now v xs (after_verdict now i m.attempt (v m) r)

judged-after_verdicts :
    (now : ℕ) (u v : InboundMessage → Verdict) (xs : Numbered) (r : Row)
    → ((m : InboundMessage) → u m ≡ v m)
    → judged now u xs r ≡ after_verdicts now v xs r
judged-after_verdicts now u v [] r same = refl
judged-after_verdicts now u v ((i, m) ∷ xs) r same =
    judged-after_verdicts now u v xs _ same
    ∙ ap (after_verdicts now v xs) (
        holds-after_verdict now i m.attempt (u m) r
        ∙ ap (λ x. after_verdict now i m.attempt x r) (same m))

-- One run of a batch handler, from its return value on: the same error goes to every message of the
-- batch, and what it comes to is decided for each by its own attempts. In the order of the batch, a
-- message that is HANDLING under its attempt becomes, column by column, SUCCESS for nil and Skip; is
-- released, as RETRYING with one attempt less, for a cancellation in shutdown; else DEAD if the error
-- is a DeadLetter, the predicate names it, or its attempts are used up; and otherwise RETRYING after
-- RetryAfter's or the policy's delay. No other message changes. The engine is on the Postgres store,
-- with no other completion waiting; its completions are flushed, if they wait, and no round trip
-- fails.
pub run_batch_handler-after_verdicts :
    (c : Config) (d : Driver) (lock : String → Session → (Bool × Error) × Session)
    (unlock : String → Session → Session) (g : Engine Session) (ended stopping : Bool)
    (cfg : HandlerConfig) (xs : Numbered) (w : World Session) (h : BatchHandler) (j : ℕ)
    → IsOnPostgres c d lock unlock g
    → IsNamed d xs
    → w.acks ≡ []
    → w.store.wires ≡ []
    → find_row j
        (settle g (run_batch_handler g ended stopping (messages_of xs) h cfg w)).store.db.messages
      ≡ map_option
          (after_verdicts w.store.now
            (λ m.
              decision g
                (ended && stopping)
                cfg
                w.store.now
                m
                (recovered "tickr: batch handler panic" (h (messages_of xs))))
            xs)
          (find_row j w.store.db.messages)
run_batch_handler-after_verdicts c d lock unlock g ended stopping cfg xs w h j placed named empty
      quiet =
    let e = recovered "tickr: batch handler panic" (h (messages_of xs)) in
    run_batch_handler-rows c d lock unlock g ended stopping cfg xs w h j placed named empty quiet
    ∙ map_option-cong _ _ (find_row j w.store.db.messages) (λ r.
      judged-after_verdicts w.store.now _ _ xs r
        (λ m. verdict_of-decision c d lock unlock g ended stopping cfg w.store.now m e))
