-- ===== src/Common/Int.antt =====
-- The C type `int`: a signed integer with its 32-bit range.
use Prim.Native.Nat.{ℕ, ◌+◌, ◌-◌, ◌%◌, ◌^◌, ◌<◌}
use mathlib.Core.Bool.{Bool, false}
use noc_demo.Common.Tests.{ltb, leb, ◌==◌, if◌then◌else◌}

-- `negsuc n` is -(n + 1).
pub data ℤ : Type 0 where
  pos : ℕ → ℤ
  negsuc : ℕ → ℤ

abbrev pub IsInt : ℤ → Type 0
IsInt (pos n) = n < 2 ^ 31
IsInt (negsuc n) = n < 2 ^ 31

-- `a >= m` for a constant `m` that is not negative
abbrev pub int_ge : ℤ → ℕ → Bool
int_ge (pos n) m = leb m n
int_ge (negsuc n) m = false

abbrev pub int_eq : ℤ → ℤ → Bool
int_eq (pos a) (pos b) = a == b
int_eq (negsuc a) (negsuc b) = a == b
int_eq _ _ = false

-- The 32 bits of a number, and the number of 32 bits.
abbrev to_word : ℤ → ℕ
to_word (pos n) = n % 2 ^ 32
to_word (negsuc n) = 2 ^ 32 - 1 - n % 2 ^ 32

abbrev of_word : ℕ → ℤ
of_word n = if ltb n (2 ^ 31) then pos n else negsuc (2 ^ 32 - 1 - n)

-- `a + b`, with the result that the processor leaves when it does not fit
unfoldable pub int_add : ℤ → ℤ → ℤ
int_add a b = of_word ((to_word a + to_word b) % 2 ^ 32)
