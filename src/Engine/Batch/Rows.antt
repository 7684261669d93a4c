-- ===== src/Engine/Batch/Rows.antt =====
-- What the return value of a batch handler comes to for its messages in the tables: engine.go over
-- the Postgres store.
use tickr.Prelude.{
  ℕ, String, List, [], ◌∷◌, ◌++◌, map, Bool, true, false, none, some, ◌≡◌, refl, inl, inr,
  Bool-cases, if◌then◌else◌, map_option, ap, sym, ◌∙◌, ◌⊎◌, arith,
}
use tickr.Errors.{Err, Error, is_skip}
use tickr.Message.{InboundMessage, Outcome, BatchSucceedParam}
use tickr.Registry.{BatchHandler, HandlerConfig}
use tickr.Engine.{World, Engine, ack_of, recovered, resolve_outcome, commit_outcome}
use tickr.Engine.Flusher.{flush, settle, settle-quiet, flushed-store}
use tickr.Engine.Decision.{IsOnPostgres, failed_verdict, verdict_of, commit_outcome-call}
use tickr.Engine.Batch.{started_all, completed_all, commit_all, run_batch_handler}
use tickr.Postgres.Table.{find_row}
use tickr.Postgres.Session.{Driver, Session, Config}
use tickr.Postgres.Ack
use tickr.Postgres.Calls.{perform}
use tickr.Postgres.Acking.{Verdict, call_of, perform-quiet, perform-verdict_row}
use tickr.Engine.Batch.Acks.{
  Numbered, messages_of, IsNamed, judged, map_option_twice, identity_row, is_success,
  commit_outcome-acks, commit_all-acks, started_all-store, completed_all-store, acks_of,
  batch_succeed-rows,
}

module _ (c : Config) (d : Driver) (lock : String → Session → (Bool × Error) × Session)
    (unlock : String → Session → Session) (g : Engine Session)
    (placed : IsOnPostgres c d lock unlock g) (cfg : HandlerConfig) (j : ℕ) where
  settle-sends :
      (p : BatchSucceedParam) (ps : List BatchSucceedParam) (w : World Session)
      → w.acks ≡ p ∷ ps
      → (settle g w).store ≡ (Ack.batch_succeed c d (p ∷ ps) w.store).1
  unfolding flush
  settle-sends p ps w q = rw (q, placed) (flushed-store g _ _)

  acks_of-messages : (xs : Numbered) → map (ack_of g) (messages_of xs) ≡ acks_of c d g.worker_id xs
  acks_of-messages [] = refl
  acks_of-messages (x ∷ xs) = ap (λ ps. ack_of g x.1 ∷ ps) (acks_of-messages xs)

  -- A success on a BatchAcker: the flusher sends all of them.
  waiting-rows :
      (e : Error) (xs : Numbered) (w : World Session)
      → g.batching ≡ true
      → IsNamed d xs
      → w.acks ≡ []
      → w.store.wires ≡ []
      → find_row j
          (settle g (commit_all g cfg e Outcome.success (messages_of xs) w)).store.db.messages
        ≡ map_option
            (judged w.store.now (λ m. Verdict.done g.worker_id) xs)
            (find_row j w.store.db.messages)
  unfolding commit_all
  waiting-rows e [] w q named empty quiet =
      ap (λ s. find_row j s.db.messages) (settle-quiet g w empty)
      ∙ identity_row (find_row j w.store.db.messages)
  waiting-rows e (x ∷ xs) w q named empty quiet =
      let w' = commit_all g cfg e Outcome.success (messages_of (x ∷ xs)) w in
      let waits = commit_all-acks g cfg e (messages_of (x ∷ xs)) w q in
      let acks : w'.acks ≡ acks_of c d g.worker_id (x ∷ xs) =
        waits.1
        ∙ (ap (λ ps. ps ++ map (ack_of g) (messages_of (x ∷ xs))) empty
            ∙ acks_of-messages (x ∷ xs)) in
      ap (λ s. find_row j s.db.messages)
        (settle-sends _ _ w' acks
          ∙ ap (λ s. (Ack.batch_succeed c d (acks_of c d g.worker_id (x ∷ xs)) s).1) waits.0)
      ∙ batch_succeed-rows c d g.worker_id x xs j w.store named quiet

  module _ (ended stopping : Bool) (e : Error) where
    abbrev outcome : Outcome
    outcome = resolve_outcome ended stopping e

    -- The verdict on each message.
    abbrev pub verdict_at : ℕ → InboundMessage → Verdict
    verdict_at now m = verdict_of c d lock unlock g ended stopping cfg now m e

    -- A commit that does not wait.
    commit_outcome-performs :
        (i : ℕ) (m : InboundMessage) (w : World Session)
        → (g.batching ≡ false) ⊎ (is_success outcome ≡ false)
        → m.id ≡ d.format i
        → w.acks ≡ []
        → (commit_outcome g m cfg e outcome w).store
          ≡ perform c d (call_of d i m.attempt (verdict_at w.store.now m)) w.store
    commit_outcome-performs i m w direct named empty =
        sym (
          settle-quiet g (commit_outcome g m cfg e outcome w)
            (commit_outcome-acks g cfg m e outcome w direct ∙ empty))
        ∙ commit_outcome-call c d lock unlock g ended stopping cfg m w i placed named empty e

    direct-rows :
        (xs : Numbered) (w : World Session)
        → (g.batching ≡ false) ⊎ (is_success outcome ≡ false)
        → IsNamed d xs
        → w.acks ≡ []
        → w.store.wires ≡ []
        → ((commit_all g cfg e outcome (messages_of xs) w).acks ≡ [])
          × (find_row j (commit_all g cfg e outcome (messages_of xs) w).store.db.messages
              ≡ map_option
                  (judged w.store.now (verdict_at w.store.now) xs)
                  (find_row j w.store.db.messages))
    unfolding commit_all
    direct-rows [] w direct named empty quiet =
        (empty, identity_row (find_row j w.store.db.messages))
    direct-rows ((i, m) ∷ xs) w direct named empty quiet =
        let w' = commit_outcome g m cfg e outcome w in
        let v = verdict_at w.store.now m in
        let done = commit_outcome-performs i m w direct named.0 empty in
        let calm = perform-quiet c d i m.attempt v w.store quiet in
        let same : w'.store.now ≡ w.store.now = ap (λ s. s.now) done ∙ calm.0 in
        let rest =
          direct-rows xs w' direct named.1 (commit_outcome-acks g cfg m e outcome w direct ∙ empty)
            (ap (λ s. s.wires) done ∙ calm.1) in
        (
          rest.0,
          rest.1
              ∙ (ap (λ n. map_option (judged n (verdict_at n) xs) (find_row j w'.store.db.messages))
                    same
                  ∙ (ap (map_option (judged w.store.now (verdict_at w.store.now) xs)) (
                        ap (λ s. find_row j s.db.messages) done
                        ∙ perform-verdict_row c d i m.attempt v w.store j quiet)
                      ∙ map_option_twice _ _ (find_row j w.store.db.messages))),
        )

    -- What is committed without waiting stays under the flush.
    settled-rows :
        (xs : Numbered) (w : World Session)
        → (g.batching ≡ false) ⊎ (is_success outcome ≡ false)
        → IsNamed d xs
        → w.acks ≡ []
        → w.store.wires ≡ []
        → find_row j (settle g (commit_all g cfg e outcome (messages_of xs) w)).store.db.messages
          ≡ map_option
              (judged w.store.now (verdict_at w.store.now) xs)
              (find_row j w.store.db.messages)
    settled-rows xs w direct named empty quiet =
        let left = direct-rows xs w direct named empty quiet in
        ap (λ s. find_row j s.db.messages)
          (settle-quiet g (commit_all g cfg e outcome (messages_of xs) w) left.0)
        ∙ left.1

  resolve_outcome-skip :
      (ended stopping : Bool) (e : Err)
      → is_skip e ≡ true
      → resolve_outcome ended stopping (some e) ≡ Outcome.success
  unfolding resolve_outcome
  resolve_outcome-skip ended stopping e q = rw q refl

  verdict_at-skip :
      (ended stopping : Bool) (e : Err) (now : ℕ)
      → is_skip e ≡ true
      → verdict_at ended stopping (some e) now ≡ (λ m. Verdict.done g.worker_id)
  verdict_at-skip ended stopping e now q =
      ap
        (λ b m.
          if b
          then Verdict.done g.worker_id
          else failed_verdict c d lock unlock g ended stopping cfg now m e)
        q

  -- Everything that the commits leave in the tables, once the acknowledgements are flushed.
  commit_all-rows :
      (ended stopping : Bool) (e : Error) (xs : Numbered) (w : World Session)
      → IsNamed d xs
      → w.acks ≡ []
      → w.store.wires ≡ []
      → find_row j
          (settle g (
            commit_all g cfg e
              (resolve_outcome ended stopping e)
              (messages_of xs)
              w)).store.db.messages
        ≡ map_option
            (judged w.store.now (verdict_at ended stopping e w.store.now) xs)
            (find_row j w.store.db.messages)
  unfolding resolve_outcome is_success
  commit_all-rows ended stopping none xs w named empty quiet = elim (Bool-cases g.batching) [
    | inl q ↦ waiting-rows none xs w q named empty quiet
    | inr q ↦ settled-rows ended stopping none xs w (inl q) named empty quiet
  ]
  commit_all-rows ended stopping (some e) xs w named empty quiet = elim (Bool-cases (is_skip e)) [
    | inl q ↦ elim (Bool-cases g.batching) [
      | inl b ↦
          ap
            (λ o.
              find_row j
                (settle g (commit_all g cfg (some e) o (messages_of xs) w)).store.db.messages)
            (resolve_outcome-skip ended stopping e q)
          ∙ (waiting-rows (some e) xs w b named empty quiet
              ∙ ap (λ v. map_option (judged w.store.now v xs) (find_row j w.store.db.messages))
                  (sym (verdict_at-skip ended stopping e w.store.now q)))
      | inr b ↦ settled-rows ended stopping (some e) xs w (inl b) named empty quiet
    ]
    | inr q ↦ settled-rows ended stopping (some e) xs w (inr (ground arith)) named empty quiet
  ]

-- One run of a batch handler, from its return value on: the same error goes to every message of
-- the batch, and what it comes to is decided for each by its own attempts. In the order of the
-- batch, a message that is HANDLING under its attempt becomes SUCCESS for nil and Skip; is released
-- for a cancellation in shutdown; else DEAD if the error is a DeadLetter, the predicate says so, or
-- its attempts are used up; and otherwise RETRYING after RetryAfter's or the policy's delay. No
-- other message changes. The engine is on the Postgres store, with no other completion waiting; its
-- completions are flushed, if they wait, and no round trip fails.
pub run_batch_handler-rows :
    (c : Config) (d : Driver) (lock : String → Session → (Bool × Error) × Session)
    (unlock : String → Session → Session) (g : Engine Session) (ended stopping : Bool)
    (cfg : HandlerConfig) (xs : Numbered) (w : World Session) (h : BatchHandler) (j : ℕ)
    → IsOnPostgres c d lock unlock g
    → IsNamed d xs
    → w.acks ≡ []
    → w.store.wires ≡ []
    → find_row j
        (settle g (run_batch_handler g ended stopping (messages_of xs) h cfg w)).store.db.messages
      ≡ map_option
          (judged w.store.now
            (λ m.
              verdict_of c d lock unlock g ended stopping cfg w.store.now m
                (recovered "tickr: batch handler panic" (h (messages_of xs))))
            xs)
          (find_row j w.store.db.messages)
unfolding run_batch_handler
run_batch_handler-rows c d lock unlock g ended stopping cfg xs w h j placed named empty quiet =
    let ms = messages_of xs in
    let e = recovered "tickr: batch handler panic" (h ms) in
    let o = resolve_outcome ended stopping e in
    let began = started_all-store g cfg ms w in
    let done = completed_all-store g cfg o ms (started_all g ms w) in
    let same = done.0 ∙ began.0 in
    commit_all-rows c d lock unlock g placed cfg j ended stopping e xs
      (completed_all g o ms (started_all g ms w)) named (done.1 ∙ (began.1 ∙ empty))
      (ap (λ s. s.wires) same ∙ quiet)
    ∙ ap
        (λ s.
          map_option
            (judged s.now (λ m. verdict_of c d lock unlock g ended stopping cfg s.now m e) xs)
            (find_row j s.db.messages))
        same
