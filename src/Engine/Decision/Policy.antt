-- ===== src/Engine/Decision/Policy.antt =====
-- What the documented policy makes of a handler's return value, and that runHandler does it on the
-- Postgres store (engine.go).
use tickr.Prelude.{
  ℕ, String, Bool, true, false, ◌&&◌, ◌||◌, Option, none, some, ◌≡◌, refl, ap, ◌∙◌, ℤ, pos, negsuc,
  leb, add_time, if◌then◌else◌, map_option, [],
}
use tickr.Errors.{Err, Error, is_skip, is_canceled, is_dead_letter, extract_retry_after, error_text}
use tickr.Message.{InboundMessage}
use tickr.Registry.{Handler, HandlerConfig, RetryPolicy}
use tickr.Engine.{
  World, Engine, recovered, is_last, max_attempts_of, is_positive, at_least, wants_dead, or_delay,
  or_policy, retry_delay, run_handler,
}
use tickr.Engine.Flusher.{settle}
use tickr.Engine.Decision.{IsOnPostgres, verdict_of, run_handler-verdict_row}
use tickr.Postgres.Table.{find_row}
use tickr.Postgres.Session.{Driver, Session, Config}
use tickr.Postgres.Acking.{Verdict}
use tickr.Postgres.Acking.Outcome.{after_verdict, holds-after_verdict, map_option-cong}

-- A limit that is not positive stands for none.
abbrev limit_or : ℤ → ℤ → ℤ
limit_or (pos ℕ.zero) d = d
limit_or (pos (ℕ.suc n)) d = pos (ℕ.suc n)
limit_or _ d = d

abbrev used_up : ℕ → ℤ → Bool
used_up attempt (pos n) = leb n attempt
used_up attempt _ = true

abbrev accepts : Option (Err → Bool) → Err → Bool
accepts none e = false
accepts (some p) e = p e

-- An error that ends the message: a DeadLetter, one that the handler's predicate names, or any error
-- of an attempt that uses up the message's limit, or else the handler's.
abbrev pub is_final : HandlerConfig → InboundMessage → Err → Bool
is_final cfg m e =
    is_dead_letter e
    || (accepts cfg.dead_letter_if e
        || used_up m.attempt (limit_or m.max_attempts cfg.max_attempts))

abbrev chosen : Option RetryPolicy → RetryPolicy → RetryPolicy
chosen none p = p
chosen (some q) p = q

abbrev delay_or : Option ℤ → ℤ → ℤ
delay_or (some t) d = t
delay_or none d = d

-- RetryAfter's delay, or else that of the handler's policy, or else of the default one.
abbrev pub delay_after : RetryPolicy → HandlerConfig → InboundMessage → Err → ℤ
delay_after policy cfg m e = delay_or (extract_retry_after e) (chosen cfg.retry policy m.attempt e)

-- The verdict of the policy on a return value.
abbrev pub decision :
    {S : Type 0} → Engine S → Bool → HandlerConfig → ℕ → InboundMessage → Error → Verdict
decision g shutdown cfg now m none = Verdict.done g.worker_id
decision g shutdown cfg now m (some e) =
    if is_skip e
    then Verdict.done g.worker_id
    else if is_canceled e && shutdown
    then Verdict.released g.worker_id "worker shutdown"
    else if is_final cfg m e
    then Verdict.buried g.worker_id (error_text g.format e)
    else Verdict.retried g.worker_id (error_text g.format e)
        (add_time now (delay_after g.policy cfg m e))

max_attempts_of-limit_or :
    (cfg : HandlerConfig) (m : InboundMessage)
    → max_attempts_of cfg m ≡ limit_or m.max_attempts cfg.max_attempts
unfolding max_attempts_of
max_attempts_of-limit_or cfg m = go m.max_attempts
  where
    go : (z : ℤ) → (if is_positive z then z else cfg.max_attempts) ≡ limit_or z cfg.max_attempts
    go (pos ℕ.zero) = refl
    go (pos (ℕ.suc n)) = refl
    go (negsuc n) = refl

at_least-used_up : (n : ℕ) (z : ℤ) → at_least n z ≡ used_up n z
at_least-used_up n (pos k) = refl
at_least-used_up n (negsuc k) = refl

wants_dead-accepts : (o : Option (Err → Bool)) (e : Err) → wants_dead o e ≡ accepts o e
wants_dead-accepts none e = refl
wants_dead-accepts (some p) e = refl

is_last-is_final :
    (cfg : HandlerConfig) (m : InboundMessage) (e : Err) → is_last cfg m e false ≡ is_final cfg m e
unfolding is_last
is_last-is_final cfg m e =
    ap (λ b. is_dead_letter e || b)
      (rw (wants_dead-accepts cfg.dead_letter_if e, max_attempts_of-limit_or cfg m)
        (ap (λ b. accepts cfg.dead_letter_if e || b)
          (at_least-used_up m.attempt (limit_or m.max_attempts cfg.max_attempts))))

or_delay-delay_or : (o : Option ℤ) (d : ℤ) → or_delay o d ≡ delay_or o d
or_delay-delay_or none d = refl
or_delay-delay_or (some t) d = refl

or_policy-chosen : (o : Option RetryPolicy) (p : RetryPolicy) → or_policy o p ≡ chosen o p
or_policy-chosen none p = refl
or_policy-chosen (some q) p = refl

retry_delay-delay_after :
    (policy : RetryPolicy) (cfg : HandlerConfig) (m : InboundMessage) (e : Err)
    → retry_delay policy cfg m e ≡ delay_after policy cfg m e
unfolding retry_delay
retry_delay-delay_after policy cfg m e =
    or_delay-delay_or (extract_retry_after e) _
    ∙ ap (λ p. delay_or (extract_retry_after e) (p m.attempt e)) (or_policy-chosen cfg.retry policy)

module _ (c : Config) (d : Driver) (lock : String → Session → (Bool × Error) × Session)
    (unlock : String → Session → Session) (g : Engine Session) (ended stopping : Bool)
    (cfg : HandlerConfig) where
  pub verdict_of-decision :
      (now : ℕ) (m : InboundMessage) (e : Error)
      → verdict_of c d lock unlock g ended stopping cfg now m e
        ≡ decision g (ended && stopping) cfg now m e
  verdict_of-decision now m none = refl
  verdict_of-decision now m (some e) =
      rw (is_last-is_final cfg m e, retry_delay-delay_after g.policy cfg m e) refl

  -- The attempt of runHandler, from the handler's return value on, for an engine on the Postgres store
  -- with no other completion waiting, when no round trip fails and the completion is flushed: the
  -- message that is HANDLING under this attempt becomes, column by column, what the return value (or a
  -- panic, as an error) asks for: SUCCESS for nil and Skip; released, as RETRYING with one attempt
  -- less, for a cancellation in shutdown; else DEAD if the error is a DeadLetter, the predicate names
  -- it, or the attempts are used up; and otherwise RETRYING after RetryAfter's or the policy's delay.
  -- No other message changes.
  pub run_handler-after_verdict :
      (m : InboundMessage) (w : World Session) (i : ℕ) (h : Handler) (j : ℕ)
      → IsOnPostgres c d lock unlock g
      → m.id ≡ d.format i
      → w.acks ≡ []
      → w.store.wires ≡ []
      → find_row j (settle g (run_handler g ended stopping m h cfg w)).store.db.messages
        ≡ map_option
            (after_verdict w.store.now i m.attempt (
              decision g
                (ended && stopping)
                cfg
                w.store.now
                m
                (recovered "tickr: handler panic" (h m))))
            (find_row j w.store.db.messages)
  run_handler-after_verdict m w i h j placed named empty quiet =
      let e = recovered "tickr: handler panic" (h m) in
      run_handler-verdict_row c d lock unlock g ended stopping cfg m w i h j placed named empty
        quiet
      ∙ map_option-cong _ _ (find_row j w.store.db.messages) (λ r.
        holds-after_verdict w.store.now i m.attempt
          (verdict_of c d lock unlock g ended stopping cfg w.store.now m e) r
        ∙ ap (λ v. after_verdict w.store.now i m.attempt v r) (verdict_of-decision w.store.now m e))
