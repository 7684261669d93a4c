-- ===== src/Prelude/Signed.antt =====
-- Go's signed integers, for the values that the source compares with zero: durations in
-- nanoseconds, and limits that a caller may leave at zero. They do not wrap here.
use Prim.Native.Nat.{ℕ, zero, suc, ◌+◌, ◌-◌, ◌<◌}
use mathlib.Core.Bool.{Bool, true, false}
use native.Mathlib.Omega.{arith}

-- `negsuc n` is -(n + 1).
pub data ℤ : Type 0 where
  pos : ℕ → ℤ
  negsuc : ℕ → ℤ

-- `if x <= 0 { x = d }`
abbrev pub or_default : ℤ → ℕ → ℕ
or_default (pos zero) d = d
or_default (pos (suc n)) d = suc n
or_default (negsuc n) d = d

abbrev pub is_negative : ℤ → Bool
is_negative (pos n) = false
is_negative (negsuc n) = true

-- `t.Add(d)`, on times that are counted from the zero time.
abbrev pub add_time : ℕ → ℤ → ℕ
add_time t (pos n) = t + n
add_time t (negsuc n) = t - suc n

pub or_default_pos : (z : ℤ) (d : ℕ) → 0 < d → 0 < or_default z d
or_default_pos (pos zero) d h = h
or_default_pos (pos (suc n)) d h = omega arith
or_default_pos (negsuc n) d h = h
