-- ===== src/Common/Int.antt =====
-- The C++ `int` of a counter that may fall below zero. `negsuc n` is -(n + 1).
use Prim.Native.Nat.{ℕ, zero, suc}
use mathlib.Core.Bool.{Bool, false}
use cg_oo_o.Common.Tests.{ltb, leb}

pub data ℤ : Type 0 where
  pos : ℕ → ℤ
  negsuc : ℕ → ℤ

-- `n--`
abbrev pub decrement : ℤ → ℤ
decrement (pos zero) = negsuc 0
decrement (pos (suc n)) = pos n
decrement (negsuc n) = negsuc (suc n)

-- `z > k` and `z >= k`, for a `k` that is not negative.
abbrev pub exceeds : ℤ → ℕ → Bool
exceeds (pos n) k = ltb k n
exceeds (negsuc n) k = false

abbrev pub at_least : ℤ → ℕ → Bool
at_least (pos n) k = leb k n
at_least (negsuc n) k = false
