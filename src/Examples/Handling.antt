-- ===== src/Examples/Handling.antt =====
-- The theorems on the handlers that the library builds, at the running message.
use mathlib.Core.List.{Memᴰ}
use tickr.Prelude.{
  ℕ, List, [], ◌∷◌, false, none, some, ◌≡◌, refl, pos, ◌⊎◌, inl, inr, arith, if◌then◌else◌, str_eq,
  ◌==◌,
}
use tickr.Errors.{Err, text, dead_letter, retry_after, error_text, is_skip, is_canceled}
use tickr.Message.{Status, InboundMessage}
use tickr.Registry.{returned, default_config}
use tickr.Postgres.Table.{nullif, order_by, find_row, empty_db}
use tickr.Postgres.Statements.{
  eligible, conflicts, enqueue_sql, claim_picks, claim_sql, holds, dead_row, retry_row, claim_row,
  find_by_idem_sql,
}
use tickr.Postgres.Session.{pick_shard, round_trip, Session, scan_message, new_id}
use tickr.Postgres.Enqueue.{notify_enqueue, insert_new, new_row, enqueue}
use tickr.Postgres.Dedup.{row_made}
use tickr.Engine.{max_attempts_of, run_handler}
use tickr.Engine.Flusher.{settle}
use tickr.Handlers.Fields.{get}
use tickr.Handlers.Fate.{Fate, fate}
use tickr.Handlers.Typed.{encode, Json, decode, TypedHandler, wrap_json}
use tickr.Handlers.Typed.RoundTrip.{IsCodec, claimed-wrap_json}
use tickr.Handlers.Typed.Refusal.{undecodable-dead_row}
use tickr.Handlers.Http
use tickr.Handlers.Http.{
  Net, Request, Response, Transport, parse_retry_after, http_error, snip, default_classifier,
  apply_headers,
}
use tickr.Handlers.Http.Classes.{default_classifier-fate}
use tickr.Handlers.Http.Delivery.{posted, post_json-buried, post_json-delayed}
use tickr.Handlers.Grpc.{Code, Rpc}
use tickr.Handlers.Grpc
use tickr.Handlers.Grpc.Codes.{unary-fate}
use tickr.Examples.{unary, plain, running, two_rows, session_at, email}
use tickr.Examples.Engine.{worker, no_lock, kept, quiet_world, at_once}

-- Numbers, as one byte.
abbrev byte : Json ℕ
byte = record { zero_value = 0; marshal = λ n. inl (n ∷ []); unmarshal = read }
  where
    read : List ℕ → ℕ ⊎ Err
    read (n ∷ []) = inl n
    read _ = inr (text "not a byte")

byte-reads : (n : ℕ) (bytes : List ℕ) → byte.marshal n ≡ inl bytes → byte.unmarshal bytes ≡ inl n
byte-reads n bytes h = ground arith

byte-IsCodec : IsCodec byte
byte-IsCodec = record { unmarshal-marshal = byte-reads; not_empty = λ n h. ground arith }

-- A handler that tells its body.
abbrev telling : TypedHandler ℕ
telling m n = if n == 4 then returned none else returned (some (text "not four"))

abbrev before : Session
before = session_at 60 [] two_rows

abbrev first : Session
first = session_at 60 [] empty_db

claimed-wrap_json_example :
    wrap_json byte telling
      (scan_message unary (claim_row 70 "w" (pos 9) (row_made plain unary (email "n") first)))
    ≡ returned none
unfolding find_row find_by_idem_sql new_id claim_row encode new_row claim_sql claim_picks order_by
    enqueue insert_new round_trip pick_shard enqueue_sql conflicts nullif notify_enqueue eligible
claimed-wrap_json_example =
    claimed-wrap_json byte telling 4 (4 ∷ []) plain unary (email "n") first 70 none 5 "w" (pos 9)
      none (claim_row 70 "w" (pos 9) (row_made plain unary (email "n") first)) byte-IsCodec refl
      refl refl refl refl (inr refl) tt refl refl (Memᴰ.head refl)

-- The running message, with a payload that is no byte.
abbrev garbled : InboundMessage
garbled = record (scan_message unary running) { payload = 1 ∷ 2 ∷ [] }

undecodable-dead_row_example :
    find_row 9
      (settle worker (
        run_handler worker false false garbled
          (wrap_json byte telling)
          (default_config at_once)
          (quiet_world before))).store.db.messages
    ≡ some (dead_row 60 "tickr: dead-letter: tickr: decode payload: not a byte" running)
unfolding find_row holds dead_row error_text dead_letter scan_message decode is_skip is_canceled
undecodable-dead_row_example =
    undecodable-dead_row byte telling plain unary no_lock kept worker false false
      (default_config at_once) garbled (quiet_world before) 9 9 (text "not a byte") refl refl refl
      refl refl refl refl

-- The running message as it is claimed.
abbrev asked : InboundMessage
asked = record {
  id = unary.format 9;
  type_name = "email";
  payload = 1 ∷ [];
  headers = [];
  idempotency_key = "";
  attempt = 2;
  max_attempts = pos 3;
  enqueued_at = 30;
  scheduled_at = 40;
  last_error = "";
  status = some Status.handling;
}

abbrev net : Net
net = record {
  canonical = λ k. k;
  trim_space = λ v. v;
  atoi = λ v. if str_eq v "2" then some (pos 2) else none;
  parse_time = λ v. none;
  accept = λ how where_to. none;
  bytes = λ b. "no";
  number = λ n. if n == 404 then "404" else "503";
}

abbrev busy : Response
busy = record { status_code = 503; header = ("Retry-After", "2") ∷ []; content = 1 ∷ [] }

abbrev missing : Response
missing = record { status_code = 404; header = []; content = [] }

default_classifier-fate_example :
    fate (default_classifier net 60 (some busy) [] none) ≡ Fate.again (some (pos 2_000_000_000))
unfolding parse_retry_after get
default_classifier-fate_example = default_classifier-fate net 60 busy []

abbrev to_orders : Http.Config ℕ
to_orders = record {
  method = "";
  url = "https://orders";
  url_func = none;
  static_headers = ("Idempotency-Key", "x") ∷ ("traceparent", "y") ∷ [];
  header_func = none;
  idempotency_header = "";
  classifier = none;
}

abbrev traced : InboundMessage
traced = record asked { headers = ("traceparent", "t") ∷ []; idempotency_key = "k" }

abbrev answer : Response → Transport
answer r req = (some r, none)

post_json-buried_example :
    find_row 9
      (settle worker (
        run_handler worker false false asked
          (posted net byte (answer busy) (answer missing) to_orders 60)
          (default_config at_once)
          (quiet_world before))).store.db.messages
    ≡ some (dead_row 60 "tickr: dead-letter: httphandler: HTTP 404: no" running)
unfolding find_row holds dead_row error_text dead_letter http_error snip decode encode
post_json-buried_example =
    post_json-buried net byte (answer busy) (answer missing) to_orders asked 1 (1 ∷ []) missing refl
      refl refl refl refl refl (λ req. refl) plain unary no_lock kept worker false false
      (default_config at_once) (quiet_world before) 9 9 refl refl refl refl refl refl

post_json-delayed_example :
    find_row 9
      (settle worker (
        run_handler worker false false asked
          (posted net byte (answer busy) (answer busy) to_orders 60)
          (default_config at_once)
          (quiet_world before))).store.db.messages
    ≡ some (retry_row 60 "tickr: retry after d: httphandler: HTTP 503: no" 2_000_000_060 running)
unfolding find_row holds retry_row error_text retry_after http_error snip decode encode
    parse_retry_after get default_config max_attempts_of
post_json-delayed_example =
    post_json-delayed net byte (answer busy) (answer busy) to_orders asked 1 (1 ∷ []) busy refl refl
      refl refl refl refl (λ req. refl) plain unary no_lock kept worker false false
      (default_config at_once) (quiet_world before) 9 9 refl refl refl refl (pos 2_000_000_000) refl
      refl refl refl

abbrev rpc : Rpc
rpc = record { lower = λ k. k; status_of = λ e. some Code.not_found }

abbrev calling : Grpc.Config ℕ
calling = record {
  static_metadata = [];
  metadata_func = none;
  idempotency_metadata = "";
  classifier = none;
}

abbrev gone : Grpc.UnaryInvoke ℕ
gone md req = some (text "gone")

unary-fate_example : fate (Grpc.unary rpc (some gone) calling traced 1) ≡ Fate.permanent
unary-fate_example = unary-fate rpc gone calling traced 1 refl
