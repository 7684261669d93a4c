-- ===== src/Examples/Policy.antt =====
-- The theorems on retry policies and the registry, at whole numbers for floats and two event types.
use tickr.Prelude.{
  ℕ, ◌+◌, ◌-◌, ◌*◌, ◌^◌, [], ◌∷◌, none, some, ◌≡◌, refl, ltb, ℤ, pos, negsuc, arith, inl,
  if◌then◌else◌,
}
use tickr.Retry.{Float64, ExponentialBackoff, next_delay, clamp_jitter, exponent}
use tickr.Retry.Bounds.{ConvertsProducts, next_delay_doubles}
use tickr.Registry.{
  Return, Handler, RetryPolicy, Registration, Registry, default_config, on, on_batch, lookup,
}
use tickr.Registry.Laws.{IsWellFormed, on-IsWellFormed}

abbrev magnitude : ℤ → ℕ
magnitude (pos n) = n
magnitude (negsuc n) = 0

abbrev saturate : ℕ → ℤ
saturate n = if ltb n (2 ^ 63) then pos n else pos (2 ^ 63 - 1)

-- Numbers without a fraction, enough for a backoff without jitter; a conversion saturates.
abbrev whole : Float64
whole = record {
  F = ℕ;
  of_int = magnitude;
  to_int = saturate;
  add = λ a b. a + b;
  sub = λ a b. a - b;
  mul = λ a b. a * b;
  pow = λ a b. a ^ b;
  less = ltb;
}

whole-ConvertsProducts : ConvertsProducts whole
whole-ConvertsProducts = record {
  exact = λ b k small h. ground arith;
  outside = λ b k small h. inl (ground arith);
}

-- A base of one second, at most one minute.
abbrev backoff : ExponentialBackoff whole
backoff = record { base = pos 1_000_000_000; max = pos 60_000_000_000; jitter_fraction = 0 }

next_delay_doubles_example : next_delay whole backoff (pos 4) 0 ≡ 8_000_000_000
unfolding exponent clamp_jitter
next_delay_doubles_example =
    next_delay_doubles whole backoff (pos 4) 0 whole-ConvertsProducts (omega arith) (omega arith)
      refl

abbrev accept : Handler
accept m = Return.returned none

abbrev at_once : RetryPolicy
at_once r e = pos 0

abbrev one_type : Registry
one_type =
    ("email", record { handler = some accept; batch_handler = none; cfg = default_config at_once })
    ∷ []

one_type-IsWellFormed : IsWellFormed one_type
unfolding lookup
one_type-IsWellFormed = (refl, refl, inl (refl, refl), tt)

on-IsWellFormed_example :
    IsWellFormed (on at_once "sms" (some accept) [] one_type).1
    × IsWellFormed (on_batch at_once "sms" none [] one_type).1
on-IsWellFormed_example =
    on-IsWellFormed at_once "sms" [] one_type (some accept) none one_type-IsWellFormed

abbrev entry_made : Registration
entry_made = record { handler = some accept; batch_handler = none; cfg = default_config at_once }
