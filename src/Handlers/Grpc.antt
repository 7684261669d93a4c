-- ===== src/Handlers/Grpc.antt =====
-- handlers/grpc/handler.go: a typed handler that makes a unary call and classifies its status.
pub mod Codes
use tickr.Prelude.{String, List, [], ◌∷◌, ◌||◌, Option, none, some, str_eq, if◌then◌else◌}
use tickr.Errors.{Err, Error, text, wrapped, dead_letter}
use tickr.Message.{InboundMessage}
use tickr.Registry.{Return, returned}
use tickr.Handlers.Fields.{Fields, put, set_all}
use tickr.Handlers.Typed.{TypedHandler}

-- The status codes that the classifier names; `other_code` is any other one.
pub data Code : Type 0 where
  ok_code invalid_argument not_found already_exists permission_denied : Code
  unauthenticated failed_precondition out_of_range unimplemented other_code : Code

-- Package google.golang.org/grpc: the spelling of metadata keys, and `status.FromError` on an
-- error that is not nil, `none` if it is no status.
pub record Rpc : Type 0 where
  pub lower : String → String
  pub status_of : Err → Option Code

-- A generated client method, on the outgoing metadata of the context, if it is given some. The
-- call options are part of it.
abbrev pub UnaryInvoke : Type 0 → Type 0
UnaryInvoke Req = Option Fields → Req → Error

abbrev pub Classifier : Type 0
Classifier = Error → Error

pub record Config (Req : Type 0) : Type 0 where
  pub static_metadata : Fields
  pub metadata_func : Option (InboundMessage → Req → Fields)
  pub idempotency_metadata : String
  pub classifier : Option Classifier

abbrev pub default_idempotency_metadata : String
default_idempotency_metadata = "x-idempotency-key"

module _ (rpc : Rpc) where
  unfoldable pub by_code : Option Code → Err → Error
  by_code none e = some (wrapped "grpchandler" e)
  by_code (some Code.ok_code) e = none
  by_code (some Code.other_code) e = some e
  by_code (some _) e = some (dead_letter (some e))

  -- DefaultClassifier
  unfoldable pub default_classifier : Classifier
  unfolding by_code
  default_classifier none = none
  default_classifier (some e) = by_code (rpc.status_of e) e

  -- The context keeps what it has when the map is empty.
  abbrev attached : Fields → Option Fields
  attached [] = none
  attached (f ∷ fs) = some (f ∷ fs)

  abbrev or_default_classifier : Option Classifier → Classifier
  or_default_classifier none = default_classifier
  or_default_classifier (some f) = f

  module _ {Req : Type 0} where
    abbrev called : Option (InboundMessage → Req → Fields) → InboundMessage → Req → Fields
    called none m req = []
    called (some f) m req = f m req

    -- applyMetadata
    unfoldable pub apply_metadata : InboundMessage → Req → Config Req → Option Fields
    unfolding put set_all
    apply_metadata m req cfg =
        let own = set_all rpc.lower cfg.static_metadata [] in
        let each = set_all rpc.lower (called cfg.metadata_func m req) own in
        let traced = set_all rpc.lower m.headers each in
        let keyed = put (rpc.lower cfg.idempotency_metadata) m.idempotency_key traced in
        attached (
          if str_eq cfg.idempotency_metadata "" || str_eq m.idempotency_key ""
          then traced
          else keyed)

    -- Unary; `none` is a nil invoke.
    unfoldable pub unary : Option (UnaryInvoke Req) → Config Req → TypedHandler Req
    unfolding apply_metadata default_classifier
    unary none cfg m req = returned (some (dead_letter (some (text "grpchandler: nil invoke"))))
    unary (some invoke) cfg m req =
        let key =
          if str_eq cfg.idempotency_metadata ""
          then default_idempotency_metadata
          else cfg.idempotency_metadata in
        returned (
          or_default_classifier cfg.classifier
            (invoke (apply_metadata m req (record cfg { idempotency_metadata = key })) req))
