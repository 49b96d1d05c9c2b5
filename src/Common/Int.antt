-- ===== src/Common/Int.antt =====
-- Signed results of C functions. `negsuc n` is -(n + 1).
use Prim.Native.Nat.{ℕ, ◌+◌, ◌-◌, ◌%◌, ◌^◌, ◌<◌}
use mathlib.Core.Path.{◌≡◌}
use native.Mathlib.Omega.{arith}
use os.Common.Tests.{leb, ltb, if◌then◌else◌}
use mathlib.Core.Bool.{Bool, true, false}

pub data ℤ : Type 0 where
  pos : ℕ → ℤ
  negsuc : ℕ → ℤ

abbrev pub minus_one : ℤ
minus_one = negsuc 0

-- a - b, as an integer.
abbrev pub sub_ℕ : ℕ → ℕ → ℤ
sub_ℕ a b = if leb b a then pos (a - b) else negsuc (b - a - 1)

abbrev pub is_negative : ℤ → Bool
is_negative (pos n) = false
is_negative (negsuc n) = true

-- The low 32 bits of a value as an `int`, in 64 bits.
unfoldable pub int_bits : ℕ → ℕ
int_bits v = if ltb (v % 2 ^ 32) (2 ^ 31) then v % 2 ^ 32 else 2 ^ 64 - 2 ^ 32 + v % 2 ^ 32

pub int_bits_small : (v : ℕ) → v < 2 ^ 31 → int_bits v ≡ v
unfolding int_bits
int_bits_small v h = ground arith
