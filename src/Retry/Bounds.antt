-- ===== src/Retry/Bounds.antt =====
-- Bounds and growth of the retry delay.
use tickr.Prelude.{
  ℕ, zero, suc, ◌-◌, ◌*◌, ◌^◌, ◌<◌, ◌≤◌, false, ℤ, pos, negsuc, or_default, or_default_pos, ◌≡◌,
  ◌⊎◌, inl, inr, min, arith, ◌∙◌,
}
use native.Mathlib.Decide.{dec_lt}
use native.Mathlib.Nat.{pow-suc}
use tickr.Retry.{
  Float64, ExponentialBackoff, second, hour, guard_overflow, clamp_jitter, exponent, nominal_delay,
  next_delay,
}

module _ (f : Float64) where
  -- What the overflow guard relies on: a product in the range of int64 is converted exactly if
  -- the base is exact in a float64, and one outside it saturates (arm64) or becomes the
  -- smallest int64 (amd64).
  pub record ConvertsProducts : Type 0 where
    pub exact :
        (b k : ℕ)
        → b < 2 ^ 53
        → b * 2 ^ k < 2 ^ 63
        → f.to_int (f.mul (f.of_int (pos b)) (f.pow (f.of_int (pos 2)) (f.of_int (pos k))))
          ≡ pos (b * 2 ^ k)
    pub outside :
        (b k : ℕ)
        → b < 2 ^ 53
        → 2 ^ 63 ≤ b * 2 ^ k
        → let z =
            f.to_int (f.mul (f.of_int (pos b)) (f.pow (f.of_int (pos 2)) (f.of_int (pos k)))) in
          (z ≡ pos (2 ^ 63 - 1)) ⊎ (z ≡ negsuc (2 ^ 63 - 1))

  guard_overflow-min : (n m : ℕ) → 0 < n → guard_overflow f (pos n) m ≡ min m n
  unfolding guard_overflow
  guard_overflow-min zero m h = absurd (omega arith)
  guard_overflow-min (suc n) m h = ground arith

  guard_overflow_outside :
      (z : ℤ) (n m : ℕ)
      → (z ≡ pos (2 ^ 63 - 1)) ⊎ (z ≡ negsuc (2 ^ 63 - 1))
      → m < 2 ^ 63
      → 2 ^ 63 ≤ n
      → guard_overflow f z m ≡ min m n
  guard_overflow_outside z n m (inl e) h k =
      rw e (guard_overflow-min (2 ^ 63 - 1) m (omega arith) ∙ omega arith)
  guard_overflow_outside z n m (inr e) h k = rw e (unfold guard_overflow in omega arith)

  pow_pos : (k : ℕ) → 0 < 2 ^ k
  pow_pos zero = omega arith
  pow_pos (suc k) = rw pow-suc (omega (arith, pow_pos k))

  -- Without jitter the delay before the next attempt is base * 2^(attempt - 1), capped at the
  -- maximum, for every attempt number: also where the product leaves int64. The defaults of one
  -- second and one hour stand for values that are not positive. The base is below 2^53 ns.
  pub next_delay_doubles :
      (e : ExponentialBackoff f) (attempt : ℤ) (r : f.F)
      → ConvertsProducts
      → or_default e.base (second f) < 2 ^ 53
      → or_default e.max (hour f) < 2 ^ 63
      → f.less (f.of_int (pos 0)) (clamp_jitter f e.jitter_fraction) ≡ false
      → next_delay f e attempt r
        ≡ min (or_default e.max (hour f)) (or_default e.base (second f) * 2 ^ exponent f attempt)
  unfolding next_delay nominal_delay
  next_delay_doubles e attempt r laws small fits steady =
      let b = or_default e.base (second f) in
      let k = exponent f attempt in
      let positive : 0 < b * 2 ^ k =
        grind (arith, pow_pos k, or_default_pos e.base (second f) (omega arith)) in
      rw steady (elim (dec_lt (b * 2 ^ k) (2 ^ 63)) [
        | yes inside ↦ rw (laws.exact b k small inside) (guard_overflow-min (b * 2 ^ k) _ positive)
        | no over ↦
            guard_overflow_outside _ (b * 2 ^ k) _ (laws.outside b k small (omega arith)) fits
              (omega arith)
      ])
