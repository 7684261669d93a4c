-- ===== src/Handlers/Http/Classes.antt =====
-- What DefaultClassifier makes of each status code, and the headers of a request
-- (handlers/http/handler.go).
use tickr.Prelude.{
  ℕ, String, List, ◌∷◌, ◌++◌, false, ◌&&◌, ◌||◌, Option, none, some, ℤ, leb, ◌==◌, if◌then◌else◌,
  str_eq, ◌≡◌, refl, ◌∙◌, arith,
}
use Prim.Native.String.{◌++◌ as str_append}
use tickr.Registry.{returned}
use tickr.Errors.{Err, text, is_dead_letter, extract_retry_after, retry_after, dead_letter}
use tickr.Message.{InboundMessage}
use tickr.Handlers.Fields.{Fields, get, get-put, get-put_other, Lacks, get-set_all_entry}
use tickr.Handlers.Fate.{Fate, fate}
use tickr.Handlers.Http.{
  Net, Response, Config, parse_retry_after, http_error, or_empty, retry_later, by_status,
  default_classifier, apply_headers, delayed,
}

-- The Retry-After of a response.
abbrev pub delay_of : Net → ℕ → Response → Option ℤ
delay_of net now r =
    parse_retry_after net now (or_empty (get (net.canonical "Retry-After") r.header))

-- The table at the top of the package.
abbrev pub documented : ℕ → Option ℤ → Fate
documented code delay =
    if leb 200 code && leb code 299
    then Fate.delivered
    else if code == 408 || (code == 425 || (code == 429 || leb 500 code))
    then Fate.again delay
    else if leb 400 code && leb code 499
    then Fate.permanent
    else Fate.again none

delayed-fate :
    (net : Net) (now : ℕ) (o : Option ℤ) (code : ℕ) (b : List ℕ)
    → fate (delayed o (http_error net now code b)) ≡ Fate.again o
unfolding retry_after http_error is_dead_letter extract_retry_after
delayed-fate net now none code b = refl
delayed-fate net now (some d) code b = refl

retry_later-fate :
    (net : Net) (now : ℕ) (r : Response) (b : List ℕ)
    → fate (retry_later net now r b) ≡ Fate.again (delay_of net now r)
unfolding retry_later
retry_later-fate net now r b = delayed-fate net now (delay_of net now r) r.status_code b

refused-fate : (e : Err) → fate (returned (some (dead_letter (some e)))) ≡ Fate.permanent
unfolding dead_letter is_dead_letter
refused-fate e = refl

plain-fate : (t : String) → fate (returned (some (text t))) ≡ Fate.again none
unfolding is_dead_letter extract_retry_after
plain-fate t = refl

by_status-fate :
    (net : Net) (now : ℕ) (r : Response) (b : List ℕ)
    → fate (by_status net now r b) ≡ documented r.status_code (delay_of net now r)
unfolding by_status
by_status-fate net now r b = ground (
  arith,
  retry_later-fate net now r b,
  refused-fate (http_error net now r.status_code b),
  plain-fate (str_append "httphandler: unexpected HTTP " (net.number r.status_code)),
)

-- DefaultClassifier makes of a response what the table at the top of the package says: success for
-- 2xx; a retry, after Retry-After if the response has one, for 408, 425, 429 and from 500 on; a
-- dead letter for the other 4xx; and a retry for all other codes.
pub default_classifier-fate :
    (net : Net) (now : ℕ) (r : Response) (b : List ℕ)
    → fate (default_classifier net now (some r) b none)
      ≡ documented r.status_code (delay_of net now r)
unfolding default_classifier
default_classifier-fate net now r b = by_status-fate net now r b

-- Whatever headers the configuration gives, the request carries the message's idempotency key
-- under the configured header, if neither is empty; and each header of the message (its trace
-- context), with the value that its map gives last to that spelling of the name, if the name is not
-- that of the idempotency header.
apply_headers-get :
    {T : Type 0} (net : Net) (m : InboundMessage) (body : T) (cfg : Config T) (fs : Fields)
    (k v : String) (before after : Fields)
    → str_eq cfg.idempotency_header "" ≡ false
    → str_eq m.idempotency_key "" ≡ false
    → m.headers ≡ before ++ (k, v) ∷ after
    → Lacks net.canonical (net.canonical k) after
    → str_eq (net.canonical cfg.idempotency_header) (net.canonical k) ≡ false
    → (get (net.canonical cfg.idempotency_header) (apply_headers net m body cfg fs)
        ≡ some m.idempotency_key)
      × (get (net.canonical k) (apply_headers net m body cfg fs) ≡ some v)
unfolding apply_headers
apply_headers-get net m body cfg fs k v before after named keyed split last apart =
    rw (named, keyed)
      (
        get-put (net.canonical cfg.idempotency_header) m.idempotency_key _,
        get-put_other (net.canonical k) (net.canonical cfg.idempotency_header) m.idempotency_key _
              apart
            ∙ (rw split (get-set_all_entry net.canonical before k v after _ last)),
      )
