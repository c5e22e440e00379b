-- ===== src/Common/Ints.antt =====
-- `int`: the integers over the native ℕ, and the 32-bit words that hold them.
use Prim.Native.Nat.{ℕ, zero, suc, ◌-◌, ◌%◌, ◌^◌}
use mathlib.Core.Bool.{Bool, true, false}
use simplerpc.Common.Tests.{ltb, if◌then◌else◌}
use simplerpc.Common.Words.{word32}

pub data ℤ : Type 0 where
  pos : ℕ → ℤ
  negsuc : ℕ → ℤ

-- `-n`, as in `return(-EINVAL)`.
abbrev pub neg : ℕ → ℤ
neg zero = pos 0
neg (suc n) = negsuc n

abbrev pub negative : ℤ → Bool
negative (pos n) = false
negative (negsuc n) = true

-- The value of a field of `size / 2` bits and a sign bit, and the field of a value.
abbrev pub signed : (size half : ℕ) → ℕ → ℤ
signed size half w = if ltb w half then pos w else negsuc (size - 1 - w)

abbrev pub unsigned : (size : ℕ) → ℤ → ℕ
unsigned size (pos n) = n % size
unsigned size (negsuc n) = size - 1 - n % size

abbrev pub int32 : ℕ → ℤ
int32 w = signed word32 (2 ^ 31) (w % word32)
