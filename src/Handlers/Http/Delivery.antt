-- ===== src/Handlers/Http/Delivery.antt =====
-- A message that PostJSON handles, from the response of the endpoint to its row in the tables
-- (handlers/http/handler.go, handler_typed.go, engine.go, storage/postgres/postgres.go).
use tickr.Prelude.{
  ℕ, String, List, [], Bool, true, false, ◌&&◌, ◌||◌, none, some, ℤ, leb, ◌==◌, if◌then◌else◌,
  str_eq, ◌≡◌, refl, ◌∙◌, take, inl, map_option, arith, add_time,
}
use tickr.Errors.{
  Err, Error, is_dead_letter, is_skip, is_canceled, extract_retry_after, retry_after, dead_letter,
  error_text,
}
use tickr.Message.{InboundMessage}
use tickr.Registry.{returned, Handler, HandlerConfig}
use tickr.Engine.{
  at_least, max_attempts_of, World, Engine, run_handler, recovered, is_last, retry_delay,
}
use tickr.Engine.Flusher.{settle}
use tickr.Engine.Decision.{IsOnPostgres, run_handler-verdict_row}
use tickr.Postgres.Table.{find_row}
use tickr.Postgres.Statements.{holds, dead_row, retry_row}
use tickr.Postgres.Session.{Driver, Session}
use tickr.Postgres.Session as Store
use tickr.Handlers.Typed.{Json, decode, encode, wrap_json}
use tickr.Handlers.Http.{
  Net, Request, Response, Transport, Config, http_error, retry_later, by_status, default_classifier,
  post, post_json, apply_headers, with_defaults, or_text,
}
use tickr.Handlers.Http.Classes.{delay_of}

-- The two ends of DefaultClassifier for a response that is no success.
client_error-returns :
    (net : Net) (now : ℕ) (r : Response) (b : List ℕ)
    → (leb 400 r.status_code && leb r.status_code 499) ≡ true
    → (r.status_code == 408 || (r.status_code == 425 || r.status_code == 429)) ≡ false
    → default_classifier net now (some r) b none
      ≡ returned (some (dead_letter (some (http_error net now r.status_code b))))
unfolding default_classifier by_status
client_error-returns net now r b h k = ground arith

busy-returns :
    (net : Net) (now : ℕ) (r : Response) (b : List ℕ) (delay : ℤ)
    → (r.status_code == 408
        || (r.status_code == 425 || (r.status_code == 429 || leb 500 r.status_code)))
      ≡ true
    → delay_of net now r ≡ some delay
    → default_classifier net now (some r) b none
      ≡ returned (some (retry_after delay (some (http_error net now r.status_code b))))
unfolding default_classifier by_status
busy-returns net now r b delay h k =
    let later : retry_later net now r b
        ≡ returned (some (retry_after delay (some (http_error net now r.status_code b)))) =
      unfold retry_later in rw k refl in
    ground (arith, later)

-- The handler that `On` registers for PostJSON.
abbrev pub posted : {T : Type 0} → Net → Json T → Transport → Transport → Config T → ℕ → Handler
posted net json default_client send cfg now =
    wrap_json json (post_json net now json default_client (some send) cfg)

-- What reaches the classifier, when nothing goes wrong before: the endpoint answers `r` to every
-- request, and the configuration has a URL and leaves the classifier to its default.
module _ {T : Type 0} (net : Net) (json : Json T) (default_client send : Transport) (cfg : Config T)
    (m : InboundMessage) (body : T) (payload : List ℕ) (r : Response)
    (decodes : decode json m.payload ≡ inl body) (encodes : encode json body ≡ inl payload)
    (static : cfg.url_func ≡ none) (placed : str_eq cfg.url "" ≡ false)
    (standard : cfg.classifier ≡ none)
    (fine : net.accept (or_text cfg.method "POST") cfg.url ≡ none)
    (answers : (req : Request) → send req ≡ (some r, none)) where
  posted-classified :
      (now : ℕ)
      → posted net json default_client send cfg now m
        ≡ default_classifier net now (some r) (take 65_536 r.content) none
  unfolding wrap_json post_json post with_defaults
  posted-classified now =
      rw
        (
          decodes,
          static,
          placed,
          encodes,
          standard,
          fine,
          answers (record {
            method = or_text cfg.method "POST";
            url = cfg.url;
            content = payload;
            header = apply_headers net m body (with_defaults net now json cfg) [];
          }),
        )
        refl

  module _ (c : Store.Config) (d : Driver) (lock : String → Session → (Bool × Error) × Session)
      (unlock : String → Session → Session) (g : Engine Session) (ended stopping : Bool)
      (hc : HandlerConfig) (w : World Session) (i j : ℕ) (on_store : IsOnPostgres c d lock unlock g)
      (named : m.id ≡ d.format i) (empty : w.acks ≡ []) (quiet : w.store.wires ≡ []) where
    -- What a failure is recorded with.
    abbrev failure : Err
    failure = http_error net w.store.now r.status_code (take 65_536 r.content)

    -- A message that PostJSON handles, which the endpoint answers with a 4xx code other than 408, 425
    -- and 429, goes from HANDLING under this attempt to DEAD, with the code in its last error,
    -- whichever attempt it is; no other message changes. Its payload decodes, the request is built,
    -- the URL is static and not empty, the classifier is the default one, and no round trip to the
    -- tables fails.
    pub post_json-buried :
        (leb 400 r.status_code && leb r.status_code 499) ≡ true
        → (r.status_code == 408 || (r.status_code == 425 || r.status_code == 429)) ≡ false
        → find_row j
            (settle g (
              run_handler g ended stopping m
                (posted net json default_client send cfg w.store.now)
                hc
                w)).store.db.messages
          ≡ map_option
              (λ row.
                if holds i m.attempt row
                then dead_row w.store.now (error_text g.format (dead_letter (some failure))) row
                else row)
              (find_row j w.store.db.messages)
    unfolding recovered is_skip is_canceled is_last is_dead_letter dead_letter http_error
    post_json-buried h k =
        run_handler-verdict_row c d lock unlock g ended stopping hc m w i
          (posted net json default_client send cfg w.store.now) j on_store named empty quiet
        ∙ (rw
            (
              posted-classified w.store.now,
              client_error-returns net w.store.now r (take 65_536 r.content) h k,
            )
            refl)

    -- A message that PostJSON handles, which the endpoint answers with 408, 425, 429 or a code from
    -- 500 on and a Retry-After, goes from HANDLING under this attempt to RETRYING, due after just
    -- that delay and not the policy's; no other message changes. It has attempts left and the
    -- handler no dead-letter predicate; its payload decodes, the request is built, the URL is static
    -- and not empty, the classifier is the default one, and no round trip to the tables fails.
    pub post_json-delayed :
        (delay : ℤ)
        → (r.status_code == 408
            || (r.status_code == 425 || (r.status_code == 429 || leb 500 r.status_code)))
          ≡ true
        → delay_of net w.store.now r ≡ some delay
        → hc.dead_letter_if ≡ none
        → at_least m.attempt (max_attempts_of hc m) ≡ false
        → find_row j
            (settle g (
              run_handler g ended stopping m
                (posted net json default_client send cfg w.store.now)
                hc
                w)).store.db.messages
          ≡ map_option
              (λ row.
                if holds i m.attempt row
                then retry_row w.store.now
                    (error_text g.format (retry_after delay (some failure)))
                    (add_time w.store.now delay)
                    row
                else row)
              (find_row j w.store.db.messages)
    unfolding recovered is_skip is_canceled is_last is_dead_letter retry_after http_error
        retry_delay extract_retry_after
    post_json-delayed delay h k free left =
        run_handler-verdict_row c d lock unlock g ended stopping hc m w i
          (posted net json default_client send cfg w.store.now) j on_store named empty quiet
        ∙ (rw
            (
              posted-classified w.store.now,
              busy-returns net w.store.now r (take 65_536 r.content) delay h k,
              free,
              left,
            )
            refl)
