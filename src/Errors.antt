-- ===== src/Errors.antt =====
-- errors.go: the error values that steer a retry, and the tests on them. `errors.As` and
-- `errors.Is` of the standard library walk the chain of wrapped errors, depth first.
use Prim.Native.String.{◌++◌ as str_append}
use tickr.Prelude.{String, Bool, true, false, ◌||◌, Option, none, some, ℤ, str_eq, if◌then◌else◌}

-- An `error` that is not nil. `duplicate` holds the existing id, the event type and the key.
pub data Err : Type 0 where
  text : String → Err
  canceled : Err
  wrapped : String → Err → Err
  joined : Err → Err → Err
  duplicate : String → String → String → Err
  retry_after_err : ℤ → Err → Err
  dead_letter_err : Err → Err
  skip_err : String → Err

-- The value of an `error` result: `none` is nil.
abbrev pub Error : Type 0
Error = Option Err

or_first : Option ℤ → Option ℤ → Option ℤ
or_first none b = b
or_first (some a) b = some a

unfoldable pub is_duplicate : Err → Bool
is_duplicate (duplicate _ _ _) = true
is_duplicate (wrapped _ e) = is_duplicate e
is_duplicate (joined a b) = is_duplicate a || is_duplicate b
is_duplicate (retry_after_err _ e) = is_duplicate e
is_duplicate (dead_letter_err e) = is_duplicate e
is_duplicate _ = false

unfoldable pub is_dead_letter : Err → Bool
is_dead_letter (dead_letter_err _) = true
is_dead_letter (wrapped _ e) = is_dead_letter e
is_dead_letter (joined a b) = is_dead_letter a || is_dead_letter b
is_dead_letter (retry_after_err _ e) = is_dead_letter e
is_dead_letter _ = false

unfoldable pub is_skip : Err → Bool
is_skip (skip_err _) = true
is_skip (wrapped _ e) = is_skip e
is_skip (joined a b) = is_skip a || is_skip b
is_skip (retry_after_err _ e) = is_skip e
is_skip (dead_letter_err e) = is_skip e
is_skip _ = false

-- `errors.Is(err, context.Canceled)`
unfoldable pub is_canceled : Err → Bool
is_canceled canceled = true
is_canceled (wrapped _ e) = is_canceled e
is_canceled (joined a b) = is_canceled a || is_canceled b
is_canceled (retry_after_err _ e) = is_canceled e
is_canceled (dead_letter_err e) = is_canceled e
is_canceled _ = false

-- The explicit delay of the first `RetryAfter` in the chain; `none` for `(0, false)`.
unfoldable pub extract_retry_after : Err → Option ℤ
unfolding or_first
extract_retry_after (retry_after_err d _) = some d
extract_retry_after (wrapped _ e) = extract_retry_after e
extract_retry_after (joined a b) = or_first (extract_retry_after a) (extract_retry_after b)
extract_retry_after (dead_letter_err e) = extract_retry_after e
extract_retry_after _ = none

-- A nil error is replaced, so the wrapped error is never nil.
unfoldable pub retry_after : ℤ → Error → Err
retry_after d none = retry_after_err d (text "retry requested")
retry_after d (some e) = retry_after_err d e

unfoldable pub dead_letter : Error → Err
dead_letter none = dead_letter_err (text "dead-lettered")
dead_letter (some e) = dead_letter_err e

unfoldable pub skip : String → Err
skip reason = skip_err reason

-- What package fmt prints: `%s` of a duration, and `%q` of a text.
pub record Format : Type 0 where
  pub duration : ℤ → String
  pub quoted : String → String

infixr 60 ◌<>◌
abbrev ◌<>◌ : String → String → String
a <> b = str_append a b

-- The `Error` methods, and those of the wrappers of packages fmt and errors. The wrapped error of
-- `RetryAfter` and `DeadLetter` is never nil.
unfoldable pub error_text : Format → Err → String
error_text f (text t) = t
error_text f canceled = "context canceled"
error_text f (wrapped what e) = what <> ": " <> error_text f e
error_text f (joined a b) = error_text f a <> "\n" <> error_text f b
error_text f (duplicate existing event_type key) =
    "tickr: duplicate idempotency key "
    <> f.quoted key
    <> " for event type "
    <> f.quoted event_type
    <> " (existing id "
    <> existing
    <> ")"
error_text f (retry_after_err d e) = "tickr: retry after " <> f.duration d <> ": " <> error_text f e
error_text f (dead_letter_err e) = "tickr: dead-letter: " <> error_text f e
error_text f (skip_err reason) =
    if str_eq reason "" then "tickr: skipped" else "tickr: skipped: " <> reason
