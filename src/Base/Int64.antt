-- ===== src/Base/Int64.antt =====
-- Go's int64 and uint64: an int64 is an integer in range, and arithmetic wraps.
use urbino.Base.Tests.{ltb, ◌==◌, if◌then◌else◌}
use urbino.Base.Int.{ℤ, pos, negsuc, ◌+ℤ◌, ◌-ℤ◌}
use Prim.Native.Nat.{ℕ, ◌-◌, ◌%◌, ◌^◌, ◌≤◌}
use mathlib.Core.Path.{◌≡◌}
use mathlib.Core.Bool.{Bool, true, false}
use native.Mathlib.Omega.{arith}

abbrev pub max_int64 : ℕ
max_int64 = 0x7fffffffffffffff

-- The bit pattern of an integer.
unfoldable pub uint64_of : ℤ → ℕ
uint64_of (pos n) = n % 2 ^ 64
uint64_of (negsuc n) = 2 ^ 64 - 1 - n % 2 ^ 64

-- The int64 with the bit pattern `n % 2 ^ 64`.
unfoldable pub int64_of : ℕ → ℤ
int64_of n =
    if ltb (n % 2 ^ 64) (2 ^ 63) then pos (n % 2 ^ 64) else negsuc (2 ^ 64 - 1 - n % 2 ^ 64)

unfoldable pub add_int64 : ℤ → ℤ → ℤ
unfolding uint64_of int64_of
add_int64 a b = int64_of (uint64_of (a +ℤ b))

unfoldable pub sub_int64 : ℤ → ℤ → ℤ
unfolding uint64_of int64_of
sub_int64 a b = int64_of (uint64_of (a -ℤ b))

abbrev pub is_negative : ℤ → Bool
is_negative (pos n) = false
is_negative (negsuc n) = true

pub int64_of_small : (n : ℕ) → n ≤ max_int64 → int64_of n ≡ pos n
unfolding int64_of
int64_of_small n h = ground arith

pub uint64_of_small : (n : ℕ) → n ≤ max_int64 → uint64_of (pos n) ≡ n
unfolding uint64_of
uint64_of_small n h = omega arith

-- `==` of two values of int64.
abbrev pub int64_eq : ℤ → ℤ → Bool
int64_eq (pos m) (pos n) = m == n
int64_eq (negsuc m) (negsuc n) = m == n
int64_eq (pos m) (negsuc n) = false
int64_eq (negsuc m) (pos n) = false

pub int64_eq_sound : (a b : ℤ) → int64_eq a b ≡ true → a ≡ b
int64_eq_sound (pos m) (pos n) h = ground arith
int64_eq_sound (negsuc m) (negsuc n) h = ground arith
int64_eq_sound (pos m) (negsuc n) h = cc
int64_eq_sound (negsuc m) (pos n) h = cc

pub int64_eq_refl : (a : ℤ) → int64_eq a a ≡ true
int64_eq_refl (pos n) = ground arith
int64_eq_refl (negsuc n) = ground arith
