-- ===== src/Common/Int.antt =====
-- Signed C integers over the native numbers: results of system calls, lags and timeouts.
use Prim.Native.Nat.{ℕ}

-- `negsuc n` is -(n + 1).
pub data ℤ : Type 0 where
  pos : ℕ → ℤ
  negsuc : ℕ → ℤ
