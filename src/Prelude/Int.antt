-- ===== src/Prelude/Int.antt =====
-- Signed integers over the native numbers: file descriptors and the sizes of a request.
use Prim.Native.Nat.{ℕ}
use mathlib.Core.Bool.{Bool, true, false}

-- `negsuc n` is -(n + 1).
pub data ℤ : Type 0 where
  pos : ℕ → ℤ
  negsuc : ℕ → ℤ

abbrev pub is_negative : ℤ → Bool
is_negative (pos n) = false
is_negative (negsuc n) = true

-- The value that stands for "no descriptor".
abbrev pub minus_one : ℤ
minus_one = negsuc 0
