-- ===== src/Engine/Decision.antt =====
-- What the return value of a handler comes to for its message in the tables: resolveOutcome and
-- commitOutcome of engine.go over the Postgres store.
pub mod Policy
use tickr.Prelude.{
  ℕ, String, Bool, false, ◌&&◌, none, some, ◌≡◌, refl, inl, inr, Bool-cases, add_time,
  if◌then◌else◌, map_option, [], ◌∷◌, ap, sym, ◌∙◌,
}
use tickr.Errors.{Err, Error, is_skip, is_canceled, error_text}
use tickr.Message.{InboundMessage, Outcome}
use tickr.Registry.{Handler, HandlerConfig}
use tickr.Engine.{
  World, Engine, report, recovered, resolve_outcome, is_last, retry_delay, fail_params,
  commit_failure, commit_outcome, run_handler,
}
use tickr.Postgres.Table.{Db, find_row}
use tickr.Postgres.Statements.{holds}
use tickr.Postgres.Session.{
  Driver, Session, Config, Wire, send_batch, round_trip, context, next_wire, rest_wires, conclude,
  answer, made, refused, cut, ◌>>=◌,
}
use tickr.Postgres.Ack
use tickr.Postgres.Session.Outcomes.{with_id-format}
use tickr.Engine.Flusher.{flush, settle, settle-quiet, flushed-store}
use tickr.Postgres.Calls.{perform}
use tickr.Postgres.Adapter.{adapter}
use tickr.Postgres.Acking.{Verdict, call_of, verdict_row, perform-verdict_row}

-- The state of the adapter after each kind of commit.
module _ {S : Type 0} (g : Engine S) (m : InboundMessage) (cfg : HandlerConfig) where
  pub report-store : (r : Error × S) (w : World S) → (report g m r w).store ≡ r.1
  report-store (none, s) w = refl
  report-store (some e, s) w = refl

  pub report-acks : (r : Error × S) (w : World S) → (report g m r w).acks ≡ w.acks
  report-acks (none, s) w = refl
  report-acks (some e, s) w = refl

  pub commit_outcome-plain :
      (e : Error) (w : World S)
      → g.batching ≡ false
      → commit_outcome g m cfg e Outcome.success w
        ≡ report g m (g.storage.succeed m.id m.attempt g.worker_id w.store) w
  unfolding commit_outcome
  commit_outcome-plain e w q = simp q

  commit_outcome-success :
      (e : Error) (w : World S)
      → g.batching ≡ false
      → w.acks ≡ []
      → (settle g (commit_outcome g m cfg e Outcome.success w)).store
        ≡ (g.storage.succeed m.id m.attempt g.worker_id w.store).1
  commit_outcome-success e w q empty =
      let r = g.storage.succeed m.id m.attempt g.worker_id w.store in
      ap (λ x. (settle g x).store) (commit_outcome-plain e w q)
      ∙ (settle-quiet g (report g m r w) (report-acks r w ∙ empty) ∙ report-store r w)

  commit_outcome-canceled :
      (e : Error) (w : World S)
      → w.acks ≡ []
      → (settle g (commit_outcome g m cfg e Outcome.canceled w)).store
        ≡ (g.storage.release_shutdown m.id m.attempt g.worker_id "worker shutdown" w.store).1
  unfolding commit_outcome
  commit_outcome-canceled e w q =
      settle-quiet g _ (
        report-acks
          (g.storage.release_shutdown m.id m.attempt g.worker_id "worker shutdown" w.store) w
        ∙ q)
      ∙ report-store _ w

  pub commit_failure-acks :
      (e : Err) (forced : Bool) (w : World S) → (commit_failure g m cfg e forced w).acks ≡ w.acks
  unfolding commit_failure
  commit_failure-acks e forced w = elim (Bool-cases (is_last cfg m e forced)) [
    | inl q ↦ rw q (report-acks _ _)
    | inr q ↦ rw q (report-acks _ _)
  ]

  commit_failure-kept :
      (e : Err) (forced : Bool) (w : World S)
      → (commit_failure g m cfg e forced w).store
        ≡ (g.storage.fail
            (fail_params g (g.storage.clock w.store) cfg m e (is_last cfg m e forced))
            w.store).1
  unfolding commit_failure
  commit_failure-kept e forced w = elim (Bool-cases (is_last cfg m e forced)) [
    | inl q ↦ rw q (report-store _ _)
    | inr q ↦ rw q (report-store _ _)
  ]

  commit_failure-store :
      (e : Err) (forced : Bool) (w : World S)
      → w.acks ≡ []
      → (settle g (commit_failure g m cfg e forced w)).store
        ≡ (g.storage.fail
            (fail_params g (g.storage.clock w.store) cfg m e (is_last cfg m e forced))
            w.store).1
  commit_failure-store e forced w empty =
      settle-quiet g (commit_failure g m cfg e forced w) (commit_failure-acks e forced w ∙ empty)
      ∙ commit_failure-kept e forced w

conclude-answer :
    (k : Wire) (db : Db) (s : Session)
    → ((conclude k (none, db) >>= answer) s).1 ≡ (conclude k (tt, db) s).1
unfolding conclude answer
conclude-answer made db s = refl
conclude-answer refused db s = refl
conclude-answer cut db s = refl

module _ (c : Config) (d : Driver) (lock : String → Session → (Bool × Error) × Session)
    (unlock : String → Session → Session) where
  batch_succeed-exec :
      (i attempt : ℕ) (worker : String) (s : Session)
      → (Ack.batch_succeed c d
          (record { message_id = d.format i; attempt = attempt; worker_id = worker } ∷ [])
          s).1
        ≡ (Ack.exec (Ack.succeed_statement c d i attempt worker) s).1
  unfolding Ack.batch_succeed Ack.queue_params Ack.succeed_each send_batch round_trip context
  batch_succeed-exec i attempt worker s = rw (d.parse-format i) (
      conclude-answer (next_wire s.wires) (Ack.succeed_statement c d i attempt worker s.now s.db)
        (record s { wires = rest_wires s.wires }))

  -- A batch of one acknowledgement leaves what Succeed leaves.
  batch_succeed-one :
      (i attempt : ℕ) (worker : String) (s : Session)
      → (Ack.batch_succeed c d
          (record { message_id = d.format i; attempt = attempt; worker_id = worker } ∷ [])
          s).1
        ≡ perform c d (call_of d i attempt (Verdict.done worker)) s
  unfolding perform Ack.succeed context
  batch_succeed-one i attempt worker s =
      batch_succeed-exec i attempt worker s
      ∙ sym (ap (λ x. x.1) (with_id-format d "tickr/postgres: succeed: bad id" i _ s))

  -- An engine on the Postgres store.
  abbrev pub IsOnPostgres : Engine Session → Type 0
  IsOnPostgres g = g.storage ≡ adapter c d lock unlock

  module _ (g : Engine Session) (ended stopping : Bool) (cfg : HandlerConfig) (now : ℕ) where
    -- The last attempt is buried, any other is retried after its delay.
    abbrev pub attempt_verdict : InboundMessage → Err → Verdict
    attempt_verdict m e =
        if is_last cfg m e false
        then Verdict.buried g.worker_id (error_text g.format e)
        else Verdict.retried g.worker_id (error_text g.format e)
            (add_time now (retry_delay g.policy cfg m e))

    -- A shutdown gives the attempt back.
    abbrev pub failed_verdict : InboundMessage → Err → Verdict
    failed_verdict m e =
        if is_canceled e && (ended && stopping)
        then Verdict.released g.worker_id "worker shutdown"
        else attempt_verdict m e

    -- The same for every return value: nil and Skip are successes.
    abbrev pub verdict_of : InboundMessage → Error → Verdict
    verdict_of m none = Verdict.done g.worker_id
    verdict_of m (some e) = if is_skip e then Verdict.done g.worker_id else failed_verdict m e

  module _ (g : Engine Session) (ended stopping : Bool) (cfg : HandlerConfig) (m : InboundMessage)
      (w : World Session) (i : ℕ) (placed : IsOnPostgres g) (named : m.id ≡ d.format i)
      (empty : w.acks ≡ []) where
    -- The session after the call that carries a verdict on the message's attempt.
    abbrev after_call : Verdict → Session
    after_call v = perform c d (call_of d i m.attempt v) w.store

    success-call :
        (e : Error)
        → (settle g (commit_outcome g m cfg e Outcome.success w)).store
          ≡ after_call (Verdict.done g.worker_id)
    unfolding commit_outcome flush
    success-call e = elim (Bool-cases g.batching) [
      | inl q ↦
          rw (q, empty, placed, named)
            (flushed-store g _ _ ∙ batch_succeed-one i m.attempt g.worker_id w.store)
      | inr q ↦
          commit_outcome-success g m cfg e w q empty ∙ (rw (placed, named) (unfold perform in refl))
    ]

    canceled-call :
        (e : Error)
        → (settle g (commit_outcome g m cfg e Outcome.canceled w)).store
          ≡ after_call (Verdict.released g.worker_id "worker shutdown")
    unfolding perform
    canceled-call e = commit_outcome-canceled g m cfg e w empty ∙ (rw (placed, named) refl)

    failure-call :
        (e : Err)
        → (settle g (commit_failure g m cfg e false w)).store
          ≡ after_call (attempt_verdict g ended stopping cfg w.store.now m e)
    unfolding perform fail_params
    failure-call e = elim (Bool-cases (is_last cfg m e false)) [
      | inl q ↦ commit_failure-store g m cfg e false w empty ∙ (rw (q, placed, named) refl)
      | inr q ↦ commit_failure-store g m cfg e false w empty ∙ (rw (q, placed, named) refl)
    ]

    -- The storage call of commitOutcome carries the verdict.
    pub commit_outcome-call :
        (e : Error)
        → (settle g (commit_outcome g m cfg e (resolve_outcome ended stopping e) w)).store
          ≡ after_call (verdict_of g ended stopping cfg w.store.now m e)
    unfolding resolve_outcome
    commit_outcome-call none = success-call none
    commit_outcome-call (some e) = elim (Bool-cases (is_skip e)) [
      | inl q ↦ rw q (success-call (some e))
      | inr q ↦ elim (Bool-cases (is_canceled e && (ended && stopping))) [
        | inl z ↦ rw (q, z) (canceled-call (some e))
        | inr z ↦ rw (q, z) (unfold commit_outcome in failure-call e)
      ]
    ]

  -- The attempt of runHandler, from the handler's return value on: if no round trip fails, the
  -- message that is HANDLING under this attempt becomes what the return value (or a panic, as an
  -- error) says: SUCCESS for nil and Skip; released for a cancellation in shutdown; else DEAD if
  -- the error is a DeadLetter, the predicate says so, or the attempts are used up; and otherwise
  -- RETRYING after RetryAfter's or the policy's delay. No other message changes. The engine is on
  -- the Postgres store, with no other completion waiting, and its completion is flushed; also if
  -- it acknowledges each message by itself.
  pub run_handler-verdict_row :
      (g : Engine Session) (ended stopping : Bool) (cfg : HandlerConfig) (m : InboundMessage)
      (w : World Session) (i : ℕ) (h : Handler) (j : ℕ)
      → IsOnPostgres g
      → m.id ≡ d.format i
      → w.acks ≡ []
      → w.store.wires ≡ []
      → find_row j (settle g (run_handler g ended stopping m h cfg w)).store.db.messages
        ≡ map_option
            (λ r.
              if holds i m.attempt r
              then verdict_row w.store.now
                  (verdict_of g ended stopping cfg w.store.now m
                    (recovered "tickr: handler panic" (h m)))
                  r
              else r)
            (find_row j w.store.db.messages)
  unfolding run_handler
  run_handler-verdict_row g ended stopping cfg m w i h j placed named empty quiet =
      let e = recovered "tickr: handler panic" (h m) in
      ap (λ x. find_row j x.db.messages)
        (commit_outcome-call g ended stopping cfg m _ i placed named empty e)
      ∙ perform-verdict_row c d i m.attempt (verdict_of g ended stopping cfg w.store.now m e)
          w.store j quiet
