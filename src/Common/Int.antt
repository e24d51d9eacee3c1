-- ===== src/Common/Int.antt =====
-- Signed integers over the native numbers, and the casts between machine words of a target with
-- 64-bit `isize` and 32-bit `c_int`.
use Prim.Native.Nat.{ℕ, ◌-◌, ◌%◌, ◌^◌, ◌≤◌, ◌<◌}
use mathlib.Core.Path.{◌≡◌}
use mathlib.Core.Bool.{Bool, true, false}
use native.Mathlib.Omega.{arith}
use c2pa_c.Common.Tests.{ltb, if◌then◌else◌}

-- `negsuc n` is -(n + 1).
pub data ℤ : Type 0 where
  pos : ℕ → ℤ
  negsuc : ℕ → ℤ

abbrev pub is_negative : ℤ → Bool
is_negative (pos _) = false
is_negative (negsuc _) = true

-- `isize::MAX`, on a 64-bit target.
abbrev pub isize_max : ℕ
isize_max = 2 ^ 63 - 1

-- `x as u64` and `x as usize` of a signed number.
abbrev pub as_u64 : ℤ → ℕ
as_u64 (pos n) = n % 2 ^ 64
as_u64 (negsuc n) = 2 ^ 64 - 1 - n % 2 ^ 64

-- `x as i64` and `x as isize` of an unsigned number.
abbrev pub as_i64 : ℕ → ℤ
as_i64 x = if ltb (x % 2 ^ 64) (2 ^ 63) then pos (x % 2 ^ 64) else negsuc (2 ^ 64 - 1 - x % 2 ^ 64)

-- `x as c_int` of an unsigned number.
abbrev pub as_c_int : ℕ → ℤ
as_c_int x =
    if ltb (x % 2 ^ 32) (2 ^ 31) then pos (x % 2 ^ 32) else negsuc (2 ^ 32 - 1 - x % 2 ^ 32)

pub as_u64-as_i64 : (x : ℕ) → x < 2 ^ 64 → as_u64 (as_i64 x) ≡ x
as_u64-as_i64 x h = ground arith

pub as_i64_small : (x : ℕ) → x ≤ isize_max → as_i64 x ≡ pos x
as_i64_small x h = ground arith

pub as_c_int_small : (x : ℕ) → x < 2 ^ 31 → as_c_int x ≡ pos x
as_c_int_small x h = ground arith

pub as_u64_small : (x : ℕ) → x ≤ isize_max → x % 2 ^ 64 ≡ x
as_u64_small x h = omega arith
