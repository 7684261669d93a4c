-- ===== src/Handlers/Http.antt =====
-- handlers/http/handler.go: a typed handler that posts the body and classifies the response.
pub mod Classes
pub mod Delivery
use Prim.Native.String.{◌++◌ as str_append}
use tickr.Prelude.{
  ℕ, ◌*◌, ◌-◌, ◌%◌, ◌^◌, String, List, [], ◌∷◌, Bool, true, false, ◌&&◌, ◌||◌, Option, none, some,
  ℤ, pos, negsuc, ltb, leb, ◌==◌, if◌then◌else◌, str_eq, take, length, min, ◌⊎◌, inl, inr,
}
use tickr.Errors.{Err, Error, text, wrapped, retry_after, dead_letter}
use tickr.Message.{InboundMessage}
use tickr.Registry.{Return, returned, panicked}
use tickr.Handlers.Fields.{Fields, put, get, set_all}
use tickr.Handlers.Typed.{Json, TypedHandler, encode, refuse}

-- What the handler takes of packages net/http, strconv, strings and fmt: `parse_time` is
-- http.ParseTime, in nanoseconds; `accept` the error of NewRequestWithContext for a method and a
-- URL; `bytes` prints a body, `number` a status code.
pub record Net : Type 0 where
  pub canonical : String → String
  pub trim_space : String → String
  pub atoi : String → Option ℤ
  pub parse_time : String → Option ℕ
  pub accept : String → String → Error
  pub bytes : List ℕ → String
  pub number : ℕ → String

pub record Request : Type 0 where
  pub method : String
  pub url : String
  pub content : List ℕ
  pub header : Fields

-- The parts of http.Response that are read.
pub record Response : Type 0 where
  pub status_code : ℕ
  pub header : Fields
  pub content : List ℕ

-- What a call of the client comes to: a response or nil, and an error.
abbrev pub Transport : Type 0
Transport = Request → Option Response × Error

abbrev pub Classifier : Type 0
Classifier = Option Response → List ℕ → Error → Return

-- `none` is a nil function.
pub record Config (T : Type 0) : Type 0 where
  pub method : String
  pub url : String
  pub url_func : Option (InboundMessage → T → String)
  pub static_headers : Fields
  pub header_func : Option (InboundMessage → T → Fields)
  pub idempotency_header : String
  pub classifier : Option Classifier

abbrev pub default_idempotency_header : String
default_idempotency_header = "Idempotency-Key"

-- The low 64 bits of a product, as a signed number.
unfoldable pub wrap_int64 : ℕ → ℤ
wrap_int64 n = let r = n % 2 ^ 64 in if ltb r (2 ^ 63) then pos r else negsuc (2 ^ 64 - 1 - r)

abbrev or_empty : Option String → String
or_empty none = ""
or_empty (some v) = v

abbrev delayed : Option ℤ → Err → Return
delayed none e = returned (some e)
delayed (some d) e = returned (some (retry_after d (some e)))

-- A default for an empty text.
abbrev pub or_text : String → String → String
or_text t d = if str_eq t "" then d else t

module _ {T : Type 0} where
  abbrev called : Option (InboundMessage → T → Fields) → InboundMessage → T → Fields
  called none m body = []
  called (some f) m body = f m body

  -- applyHeaders on the request's header map; maps are lists in the order of their iteration.
  unfoldable pub apply_headers : Net → InboundMessage → T → Config T → Fields → Fields
  unfolding put set_all
  apply_headers net m body cfg fs =
      let typed = put (net.canonical "Content-Type") "application/json" fs in
      let own = set_all net.canonical cfg.static_headers typed in
      let each = set_all net.canonical (called cfg.header_func m body) own in
      let traced = set_all net.canonical m.headers each in
      let keyed = put (net.canonical cfg.idempotency_header) m.idempotency_key traced in
      if str_eq cfg.idempotency_header "" || str_eq m.idempotency_key "" then traced else keyed

module _ (net : Net) (now : ℕ) where
  -- time.Until, which stops at the longest duration.
  abbrev after_time : Option ℕ → Option ℤ
  after_time none = none
  after_time (some t) = some (if ltb now t then pos (min (t - now) (2 ^ 63 - 1)) else pos 0)

  abbrev after_atoi : String → Option ℤ → Option ℤ
  after_atoi v (some (pos secs)) = some (wrap_int64 (secs * 1_000_000_000))
  after_atoi v _ = after_time (net.parse_time v)

  -- parseRetryAfter; `none` is (0, false).
  unfoldable pub parse_retry_after : String → Option ℤ
  unfolding wrap_int64
  parse_retry_after v =
      let t = net.trim_space v in if str_eq t "" then none else after_atoi t (net.atoi t)

  unfoldable pub snip : List ℕ → String
  snip b = if leb (length b) 200 then net.bytes b else str_append (net.bytes (take 200 b)) "…"

  -- `fmt.Errorf("httphandler: HTTP %d: %s", ...)`
  unfoldable pub http_error : ℕ → List ℕ → Err
  unfolding snip
  http_error code b =
      text
        (str_append "httphandler: HTTP " (str_append (net.number code) (str_append ": " (snip b))))

  -- A failure to be tried again, after the response's Retry-After if it has one.
  unfoldable pub retry_later : Response → List ℕ → Return
  unfolding parse_retry_after http_error
  retry_later r b =
      delayed (parse_retry_after (or_empty (get (net.canonical "Retry-After") r.header)))
        (http_error r.status_code b)

  unfoldable pub by_status : Response → List ℕ → Return
  unfolding retry_later http_error
  by_status r b =
      let code = r.status_code in
      if leb 200 code && ltb code 300
      then returned none
      else if code == 408 || (code == 425 || code == 429)
      then retry_later r b
      else if leb 400 code && ltb code 500
      then returned (some (dead_letter (some (http_error code b))))
      else if leb 500 code
      then retry_later r b
      else returned (some (text (str_append "httphandler: unexpected HTTP " (net.number code))))

  -- DefaultClassifier; a nil response without an error is a nil dereference.
  unfoldable pub default_classifier : Classifier
  unfolding by_status
  default_classifier resp b (some e) = returned (some (wrapped "httphandler: transport" e))
  default_classifier none b none =
      panicked (text "runtime error: invalid memory address or nil pointer dereference")
  default_classifier (some r) b none = by_status r b

  module _ {T : Type 0} (json : Json T) where
    -- The defaults that PostJSON fills in.
    abbrev or_classifier : Option Classifier → Option Classifier
    or_classifier none = some default_classifier
    or_classifier (some f) = some f

    unfoldable pub with_defaults : Config T → Config T
    unfolding default_classifier
    with_defaults cfg = record cfg {
      method = or_text cfg.method "POST";
      idempotency_header = or_text cfg.idempotency_header default_idempotency_header;
      classifier = or_classifier cfg.classifier;
    }

    abbrev url_of : Config T → InboundMessage → T → String
    url_of cfg m body = from cfg.url_func
      where
        from : Option (InboundMessage → T → String) → String
        from none = cfg.url
        from (some f) = f m body

    -- The body that the classifier is shown: at most 64 KiB.
    abbrev read_limited : Option Response → List ℕ
    read_limited none = []
    read_limited (some r) = take 65_536 r.content

    -- The call of the classifier, which with_defaults has set.
    abbrev classified : Option Classifier → Option Response × Error → Return
    classified none (resp, e) =
        panicked (text "runtime error: invalid memory address or nil pointer dereference")
    classified (some f) (resp, e) = f resp (read_limited resp) e

    abbrev built : Transport → Config T → InboundMessage → T → Request → Error → Return
    built send cfg m body req (some e) = refuse "httphandler: build request" e
    built send cfg m body req none =
        classified cfg.classifier
          (send (record req { header = apply_headers net m body cfg req.header }))

    abbrev with_payload : Transport → Config T → InboundMessage → T → String → List ℕ ⊎ Err → Return
    with_payload send cfg m body url (inr e) = refuse "httphandler: encode body" e
    with_payload send cfg m body url (inl payload) =
        built send cfg m body
          (record { method = cfg.method; url = url; content = payload; header = [] })
          (net.accept cfg.method url)

    -- The handler that PostJSON returns, with the configuration as it has filled it in.
    unfoldable pub post : Transport → Config T → TypedHandler T
    unfolding apply_headers encode
    post send cfg m body =
        if str_eq (url_of cfg m body) ""
        then returned (
            some (
              dead_letter
                (some (text "httphandler: no URL configured (set Config.URL or Config.URLFunc)"))))
        else with_payload send cfg m body (url_of cfg m body) (encode json body)

    -- PostJSON; `none` is the nil client, for which the default one stands.
    unfoldable pub post_json : Transport → Option Transport → Config T → TypedHandler T
    unfolding post with_defaults
    post_json default_client none cfg = post default_client (with_defaults cfg)
    post_json default_client (some send) cfg = post send (with_defaults cfg)
