-- ===== src/Handlers/Typed.antt =====
-- handler_typed.go: handlers on decoded payloads. encoding/json is a parameter.
pub mod RoundTrip
pub mod Refusal
use Prim.Native.String.{◌++◌ as str_append}
use tickr.Prelude.{ℕ, String, List, [], ◌∷◌, Option, none, some, ◌⊎◌, inl, inr, map_option}
use tickr.Errors.{Err, Error, text, wrapped, dead_letter}
use tickr.Message.{InboundMessage}
use tickr.Registry.{
  Return, returned, Handler, BatchHandler, RetryPolicy, HandlerOption, Registry, on, on_batch,
}

-- json.Marshal and json.Unmarshal at one type, with the type's zero value.
pub record Json (T : Type 0) : Type 0 where
  pub zero_value : T
  pub marshal : T → List ℕ ⊎ Err
  pub unmarshal : List ℕ → T ⊎ Err

abbrev pub TypedHandler : Type 0 → Type 0
TypedHandler T = InboundMessage → T → Return

pub record BatchItem (T : Type 0) : Type 0 where
  pub msg : InboundMessage
  pub body : T

abbrev pub TypedBatchHandler : Type 0 → Type 0
TypedBatchHandler T = List (BatchItem T) → Return

-- `DeadLetter(fmt.Errorf("...: %w", err))`
abbrev pub refuse : String → Err → Return
refuse what e = returned (some (dead_letter (some (wrapped what e))))

module _ {T : Type 0} (json : Json T) where
  abbrev encoded : List ℕ ⊎ Err → List ℕ ⊎ Err
  encoded (inl bytes) = inl bytes
  encoded (inr e) = inr (wrapped "tickr: encode payload" e)

  unfoldable pub encode : T → List ℕ ⊎ Err
  encode body = encoded (json.marshal body)

  -- The body of a payload; an empty one stays the zero value.
  unfoldable pub decode : List ℕ → T ⊎ Err
  decode [] = inl json.zero_value
  decode (b ∷ bs) = json.unmarshal (b ∷ bs)

  abbrev handled : TypedHandler T → InboundMessage → T ⊎ Err → Return
  handled h m (inl body) = h m body
  handled h m (inr e) = refuse "tickr: decode payload" e

  -- wrapJSON
  unfoldable pub wrap_json : TypedHandler T → Handler
  unfolding decode
  wrap_json h m = handled h m (decode m.payload)

  abbrev add_item :
      InboundMessage
      → T ⊎ Err
      → List (BatchItem T) ⊎ (InboundMessage × Err)
      → List (BatchItem T) ⊎ (InboundMessage × Err)
  add_item m (inr e) rest = inr (m, e)
  add_item m (inl body) (inl items) = inl (record { msg = m; body = body } ∷ items)
  add_item m (inl body) (inr stop) = inr stop

  -- The loop of wrapBatchJSON: all items, or the first message that does not decode.
  unfoldable pub decode_all : List InboundMessage → List (BatchItem T) ⊎ (InboundMessage × Err)
  unfolding decode
  decode_all [] = inl []
  decode_all (m ∷ ms) = let rest = decode_all ms in add_item m (decode m.payload) rest

  abbrev batch_handled : TypedBatchHandler T → List (BatchItem T) ⊎ (InboundMessage × Err) → Return
  batch_handled h (inl items) = h items
  batch_handled h (inr (m, e)) =
      refuse (str_append "tickr: decode payload (msg " (str_append m.id ")")) e

  -- wrapBatchJSON
  unfoldable pub wrap_batch_json : TypedBatchHandler T → BatchHandler
  unfolding decode_all
  wrap_batch_json h ms = batch_handled h (decode_all ms)

  module _ (policy : RetryPolicy) where
    -- On and OnBatch of the package; a nil handler is `none`.
    unfoldable pub on_typed :
        String → Option (TypedHandler T) → List HandlerOption → Registry → Error × Registry
    unfolding on
    on_typed event_type none options r = (some (text "tickr: handler must be non-nil"), r)
    on_typed event_type (some h) options r = on policy event_type (some (wrap_json h)) options r

    unfoldable pub on_batch_typed :
        String → Option (TypedBatchHandler T) → List HandlerOption → Registry → Error × Registry
    unfolding on_batch
    on_batch_typed event_type none options r =
        (some (text "tickr: batch handler must be non-nil"), r)
    on_batch_typed event_type (some h) options r =
        on_batch policy event_type (some (wrap_batch_json h)) options r

    -- `panic(err)` is the right side.
    abbrev or_panic : Error × Registry → Registry ⊎ Err
    or_panic (none, r) = inl r
    or_panic (some e, r) = inr e

    unfoldable pub must_on :
        String → Option (TypedHandler T) → List HandlerOption → Registry → Registry ⊎ Err
    unfolding on_typed
    must_on event_type h options r = or_panic (on_typed event_type h options r)

    unfoldable pub must_on_batch :
        String → Option (TypedBatchHandler T) → List HandlerOption → Registry → Registry ⊎ Err
    unfolding on_batch_typed
    must_on_batch event_type h options r = or_panic (on_batch_typed event_type h options r)
