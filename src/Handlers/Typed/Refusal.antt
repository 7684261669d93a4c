-- ===== src/Handlers/Typed/Refusal.antt =====
-- A payload that does not decode, up to its row in the tables (handler_typed.go, engine.go,
-- storage/postgres/postgres.go).
use tickr.Prelude.{ℕ, String, [], Bool, false, some, ◌≡◌, refl, ◌∙◌, inr, map_option, if◌then◌else◌}
use tickr.Errors.{
  Err, Error, wrapped, is_dead_letter, is_skip, is_canceled, dead_letter, error_text,
}
use tickr.Message.{InboundMessage}
use tickr.Registry.{HandlerConfig}
use tickr.Engine.{World, Engine, run_handler, recovered, is_last}
use tickr.Engine.Flusher.{settle}
use tickr.Engine.Decision.{IsOnPostgres, run_handler-verdict_row}
use tickr.Postgres.Table.{find_row}
use tickr.Postgres.Statements.{holds, dead_row}
use tickr.Postgres.Session.{Driver, Session, Config}
use tickr.Handlers.Typed.{Json, TypedHandler, decode, wrap_json}

-- A message whose payload does not decode is never given to the typed handler: at its first
-- attempt as at any other it goes from HANDLING under this attempt to DEAD, with the decoder's error
-- in its last error, and no other message changes. The decoder's error is neither a Skip nor a
-- cancellation, and no round trip to the tables fails.
pub undecodable-dead_row :
    {T : Type 0} (json : Json T) (h : TypedHandler T) (c : Config) (d : Driver)
    (lock : String → Session → (Bool × Error) × Session) (unlock : String → Session → Session)
    (g : Engine Session) (ended stopping : Bool) (cfg : HandlerConfig) (m : InboundMessage)
    (w : World Session) (i j : ℕ) (e : Err)
    → decode json m.payload ≡ inr e
    → is_skip e ≡ false
    → is_canceled e ≡ false
    → IsOnPostgres c d lock unlock g
    → m.id ≡ d.format i
    → w.acks ≡ []
    → w.store.wires ≡ []
    → find_row j
        (settle g (run_handler g ended stopping m (wrap_json json h) cfg w)).store.db.messages
      ≡ map_option
          (λ r.
            if holds i m.attempt r
            then dead_row w.store.now
                (error_text g.format (dead_letter (some (wrapped "tickr: decode payload" e))))
                r
            else r)
          (find_row j w.store.db.messages)
unfolding wrap_json recovered is_skip is_canceled is_last is_dead_letter dead_letter
undecodable-dead_row json h c d lock unlock g ended stopping cfg m w i j e bad kept_on alive
      on_store named empty quiet =
    run_handler-verdict_row c d lock unlock g ended stopping cfg m w i (wrap_json json h) j on_store
      named empty quiet
    ∙ (rw (bad, kept_on, alive) refl)
