-- ===== src/Common/Words.antt =====
-- `size_t` and `uint32_t` arithmetic: numbers below `2 ^ 64` and `2 ^ 32`, with the wrap written out.
use Prim.Native.Nat.{ℕ, ◌+◌, ◌-◌, ◌*◌, ◌/◌, ◌%◌, ◌^◌, ◌<◌}
use mathlib.Core.Path.{◌≡◌, sym, ap, ◌∙◌}
use mathlib.Core.Logic.{◌≢◌}
use native.Mathlib.Nat.{mod-add-div, mul-le-mul_left, mul_assoc, add-mul-mod_self_left}
use native.Mathlib.Decide.{dec_lt}
use native.Mathlib.Omega.{arith}

abbrev pub word64 : ℕ
word64 = 2 ^ 64

abbrev pub add64 : ℕ → ℕ → ℕ
add64 a b = (a + b) % word64

abbrev pub sub64 : ℕ → ℕ → ℕ
sub64 a b = (a + word64 - b) % word64

abbrev pub word32 : ℕ
word32 = 2 ^ 32

mod-mod_of_mul : (c d m n : ℕ) → c * d ≡ m → n % m % c ≡ n % c
mod-mod_of_mul c d m n e =
    sym (add-mul-mod_self_left (n % m) c (d * (n / m))) ∙ ap (λ k. k % c) whole
  where
    whole : n % m + c * (d * (n / m)) ≡ n
    whole = rw (← mul_assoc, e) (mod-add-div n m)

-- A counter that wraps still indexes an array whose size divides the modulus.
pub mod-word64 : (size d n : ℕ) → size * d ≡ word64 → n % word64 % size ≡ n % size
mod-word64 size d n e = mod-mod_of_mul size d word64 n e

-- Numbers less than `size` apart have different rests.
pub mod-ne : (size a b : ℕ) → a < b → b < a + size → b % size ≢ a % size
mod-ne size a b lt near e = elim (dec_lt (a / size) (b / size)) [
  | yes p ↦ omega (arith, mul-le-mul_left size p, mod-add-div a size, mod-add-div b size)
  | no p ↦ grind (arith, mod-add-div a size, mod-add-div b size)
]
