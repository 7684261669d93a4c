-- ===== src/Retry.antt =====
-- retry.go: ExponentialBackoff. A duration is a number of nanoseconds. There are no floats here:
-- float64 and its operations are a parameter, an implementation of IEEE 754 as Go uses it.
pub mod Bounds
use tickr.Prelude.{
  ℕ, zero, suc, ◌+◌, ◌-◌, ◌*◌, ◌^◌, ◌<◌, ◌≤◌, Bool, true, false, ltb, if◌then◌else◌, ℤ, pos, negsuc,
  or_default, ◌≡◌, ◌⊎◌,
}

-- `to_int` is the conversion `time.Duration(x)`, `less` is `<`.
pub record Float64 : Type 1 where
  pub F : Type 0
  pub of_int : ℤ → F
  pub to_int : F → ℤ
  pub add : F → F → F
  pub sub : F → F → F
  pub mul : F → F → F
  pub pow : F → F → F
  pub less : F → F → Bool

module _ (f : Float64) where
  open f use {F, of_int, to_int, add, sub, mul, pow, less}

  -- The fields of ExponentialBackoff but `Rand`, whose value is an argument below.
  pub record ExponentialBackoff : Type 0 where
    pub base : ℤ
    pub max : ℤ
    pub jitter_fraction : F

  abbrev one : F
  one = of_int (pos 1)

  abbrev pub second : ℕ
  second = 1_000_000_000

  abbrev pub hour : ℕ
  hour = 3600 * second

  -- The jitter clamped to [0, 1].
  unfoldable pub clamp_jitter : F → F
  clamp_jitter j =
      let low = if less j (of_int (pos 0)) then of_int (pos 0) else j in
      if less one low then one else low

  -- `if d <= 0 || d > maxDelay { d = maxDelay }`
  unfoldable pub guard_overflow : ℤ → ℕ → ℕ
  guard_overflow (pos zero) m = m
  guard_overflow (pos (suc n)) m = if ltb m (suc n) then m else suc n
  guard_overflow (negsuc n) m = m

  -- `d = max(d, 0); d = min(d, maxDelay)`
  unfoldable pub clamp_delay : ℤ → ℕ → ℕ
  clamp_delay (pos n) m = if ltb m n then m else n
  clamp_delay (negsuc n) m = 0

  -- The attempts made, at least 1, less one.
  unfoldable pub exponent : ℤ → ℕ
  exponent (pos n) = n - 1
  exponent (negsuc n) = 0

  -- base * 2^(attempt - 1), converted back, with the overflow guard.
  unfoldable pub nominal_delay : ExponentialBackoff → ℤ → ℕ
  unfolding guard_overflow exponent
  nominal_delay e attempt =
      guard_overflow
        (to_int (
          mul (of_int (pos (or_default e.base second)))
            (pow (of_int (pos 2)) (of_int (pos (exponent attempt))))))
        (or_default e.max hour)

  -- NextDelay, for the value `r` of the random source.
  unfoldable pub next_delay : ExponentialBackoff → ℤ → F → ℕ
  unfolding nominal_delay clamp_jitter clamp_delay
  next_delay e attempt r =
      let jitter = clamp_jitter e.jitter_fraction in
      let d = nominal_delay e attempt in
      let spread = mul (sub (mul (of_int (pos 2)) r) one) jitter in
      if less (of_int (pos 0)) jitter
      then clamp_delay (to_int (mul (of_int (pos d)) (add one spread))) (or_default e.max hour)
      else d
