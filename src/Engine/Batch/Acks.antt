-- ===== src/Engine/Batch/Acks.antt =====
-- The pieces of a batch's completion: what waits for the flusher, and what BatchSucceed does to
-- each message (engine.go, storage/postgres/postgres.go).
use tickr.Prelude.{
  ℕ, String, List, [], ◌∷◌, ◌++◌, map, All, length, ltb, Bool, true, false, Option, none, some, ◌≡◌,
  refl, inl, inr, if◌then◌else◌, map_option, ap, sym, ◌∙◌, ◌⊎◌, arith,
}
use mathlib.Core.List.{append-nil, append_assoc}
use tickr.Errors.{Error}
use tickr.Message.{InboundMessage, Outcome, BatchSucceedParam}
use tickr.Registry.{HandlerConfig}
use tickr.Engine.{World, Engine, ack_of, commit_outcome}
use tickr.Engine.Decision.{report-acks, commit_failure-acks, commit_outcome-plain}
use tickr.Engine.Batch.{started_all, completed_all, commit_all}
use tickr.Postgres.Table.{Row, Db, find_row}
use tickr.Postgres.Statements.{holds}
use tickr.Postgres.Rows.{find_row-update}
use tickr.Postgres.Session.{
  Driver, Session, Config, answer, next_wire, rest_wires, conclude, send_batch, context,
}
use tickr.Postgres.Ack
use tickr.Postgres.Acking.{Verdict, verdict_row, verdict_row-id, verdict_statement-messages}

-- Messages with the numbers that their ids stand for.
abbrev pub Numbered : Type 0
Numbered = List (ℕ × InboundMessage)

abbrev pub messages_of : Numbered → List InboundMessage
messages_of = map (λ x. x.1)

abbrev pub IsNamed : Driver → Numbered → Type 0
IsNamed d xs = All (λ x. x.1.id ≡ d.format x.0) xs

-- The verdict of each message on a row, one after the other.
abbrev pub judged : ℕ → (InboundMessage → Verdict) → Numbered → Row → Row
judged now v [] r = r
judged now v ((i, m) ∷ xs) r =
    judged now v xs (if holds i m.attempt r then verdict_row now (v m) r else r)

pub map_option_twice :
    (f h : Row → Row) (o : Option Row) → map_option f (map_option h o) ≡ map_option (λ r. f (h r)) o
map_option_twice f h none = refl
map_option_twice f h (some r) = refl

unfoldable pub is_success : Outcome → Bool
is_success Outcome.success = true
is_success _ = false

module _ {S : Type 0} (g : Engine S) (cfg : HandlerConfig) where
  -- Only a success on a BatchAcker waits for the flusher.
  pub commit_outcome-acks :
      (m : InboundMessage) (e : Error) (o : Outcome) (w : World S)
      → (g.batching ≡ false) ⊎ (is_success o ≡ false)
      → (commit_outcome g m cfg e o w).acks ≡ w.acks
  unfolding commit_outcome is_success
  commit_outcome-acks m e Outcome.success w (inl q) =
      ap (λ x. x.acks) (commit_outcome-plain g m cfg e w q) ∙ report-acks g m cfg _ w
  commit_outcome-acks m e Outcome.success w (inr q) = absurd (ground arith)
  commit_outcome-acks m e Outcome.canceled w q = report-acks g m cfg _ w
  commit_outcome-acks m (some e) Outcome.retry w q = commit_failure-acks g m cfg e false w
  commit_outcome-acks m (some e) Outcome.dead w q = commit_failure-acks g m cfg e true w
  commit_outcome-acks m none Outcome.retry w q = refl
  commit_outcome-acks m none Outcome.dead w q = refl

  commit_outcome-waits :
      (m : InboundMessage) (e : Error) (w : World S)
      → g.batching ≡ true
      → commit_outcome g m cfg e Outcome.success w ≡ record w { acks = w.acks ++ ack_of g m ∷ [] }
  unfolding commit_outcome
  commit_outcome-waits m e w q = simp q

  -- A success on a BatchAcker only waits.
  pub commit_all-acks :
      (e : Error) (ms : List InboundMessage) (w : World S)
      → g.batching ≡ true
      → ((commit_all g cfg e Outcome.success ms w).store ≡ w.store)
        × ((commit_all g cfg e Outcome.success ms w).acks ≡ w.acks ++ map (ack_of g) ms)
  unfolding commit_all
  commit_all-acks e [] w q = (refl, sym (append-nil w.acks))
  commit_all-acks e (m ∷ ms) w q =
      let w' : World S = record w { acks = w.acks ++ ack_of g m ∷ [] } in
      let rest = commit_all-acks e ms w' q in
      let here = commit_outcome-waits m e w q in
      (
        ap (λ x. (commit_all g cfg e Outcome.success ms x).store) here ∙ rest.0,
        ap (λ x. (commit_all g cfg e Outcome.success ms x).acks) here
            ∙ (rest.1 ∙ append_assoc w.acks (ack_of g m ∷ []) (map (ack_of g) ms)),
      )

  pub started_all-store :
      (ms : List InboundMessage) (w : World S)
      → ((started_all g ms w).store ≡ w.store) × ((started_all g ms w).acks ≡ w.acks)
  unfolding started_all
  started_all-store [] w = (refl, refl)
  started_all-store (m ∷ ms) w = started_all-store ms _

  pub completed_all-store :
      (o : Outcome) (ms : List InboundMessage) (w : World S)
      → ((completed_all g o ms w).store ≡ w.store) × ((completed_all g o ms w).acks ≡ w.acks)
  unfolding completed_all
  completed_all-store o [] w = (refl, refl)
  completed_all-store o (m ∷ ms) w = completed_all-store o ms _

pub identity_row : (o : Option Row) → o ≡ map_option (λ r. r) o
identity_row none = refl
identity_row (some r) = refl

module _ (c : Config) (d : Driver) (worker : String) where
  abbrev queued : Numbered → List (ℕ × ℕ × String)
  queued = map (λ x. (x.0, x.1.attempt, worker))

  abbrev pub acks_of : Numbered → List BatchSucceedParam
  acks_of = map (λ x. record { message_id = x.1.id; attempt = x.1.attempt; worker_id = worker })

  queue_params-named :
      (xs : Numbered) → IsNamed d xs → Ack.queue_params c d (acks_of xs) ≡ queued xs
  unfolding Ack.queue_params
  queue_params-named [] named = refl
  queue_params-named ((i, m) ∷ xs) named =
      rw (named.0, d.parse-format i, queue_params-named xs named.1) refl

  length-queued : (xs : Numbered) → ltb (length (queued xs)) (length (acks_of xs)) ≡ false
  length-queued [] = refl
  length-queued (x ∷ xs) = ground (arith, length-queued xs)

  -- One acknowledgement after another.
  succeed_each-rows :
      (xs : Numbered) (now j : ℕ) (db : Db)
      → find_row j (Ack.succeed_each c d (queued xs) now db).messages
        ≡ map_option (judged now (λ m. Verdict.done worker) xs) (find_row j db.messages)
  unfolding Ack.succeed_each
  succeed_each-rows [] now j db = identity_row (find_row j db.messages)
  succeed_each-rows ((i, m) ∷ xs) now j db =
      succeed_each-rows xs now j (Ack.succeed_statement c d i m.attempt worker now db)
      ∙ (ap (λ ms. map_option (judged now (λ x. Verdict.done worker) xs) (find_row j ms))
            (verdict_statement-messages c d i m.attempt (Verdict.done worker) now db)
          ∙ (ap (map_option (judged now (λ x. Verdict.done worker) xs)) (
                find_row-update j (holds i m.attempt) (verdict_row now (Verdict.done worker))
                  db.messages (verdict_row-id now (Verdict.done worker)))
              ∙ map_option_twice _ _ (find_row j db.messages)))

  pub batch_succeed-rows :
      (x : ℕ × InboundMessage) (xs : Numbered) (j : ℕ) (s : Session)
      → IsNamed d (x ∷ xs)
      → s.wires ≡ []
      → find_row j (Ack.batch_succeed c d (acks_of (x ∷ xs)) s).1.db.messages
        ≡ map_option (judged s.now (λ m. Verdict.done worker) (x ∷ xs)) (find_row j s.db.messages)
  unfolding Ack.batch_succeed send_batch context answer next_wire rest_wires conclude
  batch_succeed-rows x xs j s named quiet =
      rw (queue_params-named (x ∷ xs) named, length-queued (x ∷ xs), quiet)
        (succeed_each-rows (x ∷ xs) s.now j s.db)
