-- ===== src/Engine/Batch.antt =====
-- runBatchHandler of engine.go: one call of the handler for several messages of one type.
pub mod Acks
pub mod Rows
pub mod Policy
use tickr.Prelude.{String, List, [], ◌∷◌, Bool}
use tickr.Errors.{Error}
use tickr.Message.{InboundMessage, Outcome}
use tickr.Registry.{BatchHandler, HandlerConfig}
use tickr.Storage.{handler_started, handler_completed}
use tickr.Engine.{World, Engine, count, recovered, resolve_outcome, commit_outcome}

module _ {S : Type 0} (g : Engine S) where
  unfoldable pub started_all : List InboundMessage → World S → World S
  started_all [] w = w
  started_all (m ∷ ms) w = started_all ms (count g (handler_started m.type_name m.attempt) w)

  unfoldable pub completed_all : Outcome → List InboundMessage → World S → World S
  completed_all o [] w = w
  completed_all o (m ∷ ms) w =
      completed_all o ms (count g (handler_completed m.type_name m.attempt o) w)

  -- The outcome of the one call is committed for each message by itself.
  unfoldable pub commit_all :
      HandlerConfig → Error → Outcome → List InboundMessage → World S → World S
  unfolding commit_outcome
  commit_all cfg err o [] w = w
  commit_all cfg err o (m ∷ ms) w = commit_all cfg err o ms (commit_outcome g m cfg err o w)

  -- From the handler's return on, with the panic of safeInvokeBatch.
  unfoldable pub run_batch_handler :
      Bool → Bool → List InboundMessage → BatchHandler → HandlerConfig → World S → World S
  unfolding recovered resolve_outcome commit_all started_all completed_all
  run_batch_handler ended stopping ms h cfg w =
      let err = recovered "tickr: batch handler panic" (h ms) in
      let outcome = resolve_outcome ended stopping err in
      commit_all cfg err outcome ms (completed_all outcome ms (started_all ms w))
