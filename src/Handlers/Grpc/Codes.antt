-- ===== src/Handlers/Grpc/Codes.antt =====
-- What the classifier of unary calls makes of each status (handlers/grpc/handler.go).
use tickr.Prelude.{
  Bool, true, false, Option, none, some, if◌then◌else◌, ◌≡◌, refl, arith, String, str_eq,
}
use tickr.Errors.{Err, Error, dead_letter, is_dead_letter, extract_retry_after}
use tickr.Message.{InboundMessage}
use tickr.Registry.{returned}
use tickr.Handlers.Fate.{Fate, fate, fate_of}
use tickr.Handlers.Grpc.{
  Code, Rpc, UnaryInvoke, Config, by_code, default_classifier, default_idempotency_metadata, unary,
  apply_metadata,
}

-- The codes that the table at the top of the package buries.
abbrev pub is_permanent : Code → Bool
is_permanent Code.ok_code = false
is_permanent Code.other_code = false
is_permanent _ = true

-- That table, on an error and its status; any other error keeps its own meaning.
abbrev pub documented : Err → Option Code → Fate
documented e (some Code.ok_code) = Fate.delivered
documented e (some c) = if is_permanent c then Fate.permanent else fate_of e
documented e none = fate_of e

by_code-fate :
    (rpc : Rpc) (o : Option Code) (e : Err) → fate (returned (by_code rpc o e)) ≡ documented e o
unfolding by_code dead_letter is_dead_letter extract_retry_after
by_code-fate rpc none e = refl
by_code-fate rpc (some c) e = ground arith

abbrev pub documented_error : Rpc → Error → Fate
documented_error rpc none = Fate.delivered
documented_error rpc (some e) = documented e (rpc.status_of e)

default_classifier-fate :
    (rpc : Rpc) (e : Error) → fate (returned (default_classifier rpc e)) ≡ documented_error rpc e
unfolding default_classifier
default_classifier-fate rpc none = refl
default_classifier-fate rpc (some e) = by_code-fate rpc (rpc.status_of e) e

-- The key under which the idempotency key is sent.
abbrev pub key_or_default : String → String
key_or_default k = if str_eq k "" then default_idempotency_metadata else k

-- With the default classifier, the handler of Unary makes one call, with the message's metadata, and
-- makes of its error what the table at the top of the package says: success for no error and for
-- the status OK, a dead letter for the eight codes that a retry cannot mend; any other status, and
-- an error that is none, stays the error it is, which is tried again unless it is a dead letter
-- itself, after the delay that it may ask for.
pub unary-fate :
    {Req : Type 0} (rpc : Rpc) (invoke : UnaryInvoke Req) (cfg : Config Req) (m : InboundMessage)
    (req : Req)
    → cfg.classifier ≡ none
    → fate (unary rpc (some invoke) cfg m req)
      ≡ documented_error rpc (
          invoke
            (apply_metadata rpc m req
              (record cfg { idempotency_metadata = key_or_default cfg.idempotency_metadata }))
            req)
unfolding unary
unary-fate rpc invoke cfg m req standard = rw standard (default_classifier-fate rpc _)
