-- ===== src/Client.antt =====
-- client.go: Client.Enqueue and Client.EnqueueBatch. The caller's transaction only selects the connection.
pub mod Laws
pub mod Announcing
use Prim.Native.String.{◌++◌ as str_append}
use tickr.Prelude.{
  ℕ, String, List, [], ◌∷◌, ◌++◌, Option, none, some, ℤ, or_default, pos, str_eq, if◌then◌else◌,
  ◌==◌, Bool, ◌⊎◌, inl, inr, some_of, suc,
}
use tickr.Errors.{Err, Error, text, is_duplicate}
use tickr.Message.{Message, InboundMessage, EnqueueParams}
use tickr.Storage.{Storage, Metric, message_enqueued}

-- `inject` is InjectHeaders of the tracer, in the span that it started; `number` prints an index.
pub record Client (S : Type 0) : Type 0 where
  pub storage : Storage S
  pub default_max_attempts : ℤ
  pub inject : List (String × String) → List (String × String)
  pub number : ℕ → String

-- The adapter's state and the metrics, the newest last.
pub record Counted (S : Type 0) : Type 0 where
  pub store : S
  pub metrics : List Metric

-- `maxAttempts <= 0` takes the client's default, which the storage may default again.
unfoldable pub attempts_or : ℤ → ℤ → ℤ
attempts_or (pos ℕ.zero) d = d
attempts_or (pos (ℕ.suc n)) d = pos (ℕ.suc n)
attempts_or _ d = d

abbrev map_right : {A B E : Type 0} → (A → B) → E ⊎ A → E ⊎ B
map_right f (inl e) = inl e
map_right f (inr a) = inr (f a)

module _ {S : Type 0} (c : Client S) where
  unfoldable pub params_of : ℕ → Message → EnqueueParams
  unfolding attempts_or
  params_of now m = record {
    event_type = m.type_name;
    payload = m.payload;
    headers = c.inject m.headers;
    idempotency_key = m.idempotency_key;
    max_attempts = attempts_or m.max_attempts c.default_max_attempts;
    process_at = if m.scheduled_at == 0 then now else m.scheduled_at;
  }

  abbrev told : Option (String → S → Error × S) → String → Counted S → Counted S
  told none t w = w
  told (some f) t w = record w { store = (f t w.store).1 }

  -- The notification, whose error is only logged; a duplicate sends none.
  abbrev notified : String → Error → Counted S → Counted S
  notified t none w = told c.storage.notify t w
  notified t (some e) w = w

  abbrev answered :
      String → Option InboundMessage → Error → Counted S → (String × Error) × Counted S
  answered t none e w = (("", e), w)
  answered t (some m) e w =
      ((m.id, e), notified t e (record w { metrics = w.metrics ++ message_enqueued t ∷ [] }))

  unfoldable pub after_enqueue :
      String → Option InboundMessage × Error → Counted S → (String × Error) × Counted S
  after_enqueue t (o, none) w = answered t o none w
  after_enqueue t (o, some e) w =
      if is_duplicate e then answered t o (some e) w else (("", some e), w)

  -- The message's id, "" if there is none.
  unfoldable pub enqueue : Message → Counted S → (String × Error) × Counted S
  unfolding after_enqueue params_of
  enqueue m w =
      let (reply, s) = c.storage.enqueue (params_of (c.storage.clock w.store) m) w.store in
      if str_eq m.type_name ""
      then (("", some (text "tickr: Message.Type required")), w)
      else after_enqueue m.type_name reply (record w { store = s })

  -- The parameters of a batch, or the error of the first message without a type; `i` is the index of
  -- the first one.
  unfoldable pub batch_params : ℕ → ℕ → List Message → Err ⊎ List EnqueueParams
  unfolding params_of
  batch_params now i [] = inr []
  batch_params now i (m ∷ ms) =
      let rest = batch_params now (suc i) ms in
      if str_eq m.type_name ""
      then inl (
          text
            (str_append "tickr: batch item " (str_append (c.number i) ": Message.Type required")))
      else map_right (λ ps. params_of now m ∷ ps) rest

  -- A type that was notified before in the batch is not notified again.
  abbrev pub told_once : List String → String → Counted S → Counted S
  told_once seen t w = if some_of (str_eq t) seen then w else told c.storage.notify t w

  -- The messages that the storage answers; the ids are parallel to them, "" for a nil.
  unfoldable pub announce :
      List String → List (Option InboundMessage) → Counted S → List String × Counted S
  announce seen [] w = ([], w)
  announce seen (none ∷ os) w = let (ids, w') = announce seen os w in ("" ∷ ids, w')
  announce seen (some m ∷ os) w =
      let counted = record w { metrics = w.metrics ++ message_enqueued m.type_name ∷ [] } in
      let (ids, w') = announce (m.type_name ∷ seen) os (told_once seen m.type_name counted) in
      (m.id ∷ ids, w')

  abbrev pub after_batch :
      (List (Option InboundMessage) × Error) × S → Counted S → (List String × Error) × Counted S
  after_batch ((os, e), s) w =
      let (ids, w') = announce [] os (record w { store = s }) in ((ids, e), w')

  abbrev pub stored_batch : Err ⊎ List EnqueueParams → Counted S → (List String × Error) × Counted S
  stored_batch (inl e) w = (([], some e), w)
  stored_batch (inr ps) w = after_batch (c.storage.enqueue_batch ps w.store) w

  unfoldable pub enqueue_batch : List Message → Counted S → (List String × Error) × Counted S
  unfolding batch_params announce
  enqueue_batch [] w = (([], none), w)
  enqueue_batch (m ∷ ms) w = stored_batch (batch_params (c.storage.clock w.store) 0 (m ∷ ms)) w
