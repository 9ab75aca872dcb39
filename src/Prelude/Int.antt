-- ===== src/Prelude/Int.antt =====
-- Python's `int` where it may be negative: signed integers over the native numbers.
use Prim.Native.Nat.{ℕ, min}

-- `negsuc n` is -(n + 1).
pub data ℤ : Type 0 where
  pos : ℕ → ℤ
  negsuc : ℕ → ℤ

-- `max(0, min(v, hi))`
unfoldable pub clamp_to : ℕ → ℤ → ℕ
clamp_to hi (pos n) = min n hi
clamp_to hi (negsuc n) = 0
