-- ===== src/Prelude/Words.antt =====
-- Go's fixed-width integers: an unsigned word is its value, a signed one the integer that it stands
-- for, with the two's complement pattern between them.
use Prim.Native.Nat.{ℕ, ◌+◌, ◌-◌, ◌*◌, ◌/◌, ◌%◌, ◌^◌, ◌<◌}
use mathlib.Core.Path.{◌≡◌}
use native.Mathlib.Omega.{arith}
use go_rsync_receiver.Prelude.Tests.{ltb, if◌then◌else◌}
use go_rsync_receiver.Prelude.Int.{ℤ, pos, negsuc}

-- `uint32(x)` of an int32, and the wrap of a wider integer.
abbrev pub to_u32 : ℤ → ℕ
to_u32 (pos n) = n % 2 ^ 32
to_u32 (negsuc n) = 2 ^ 32 - 1 - n % 2 ^ 32

-- `int32(w)` of a uint32.
abbrev pub to_i32 : ℕ → ℤ
to_i32 w = if ltb w (2 ^ 31) then pos w else negsuc (2 ^ 32 - 1 - w)

abbrev pub to_u64 : ℤ → ℕ
to_u64 (pos n) = n % 2 ^ 64
to_u64 (negsuc n) = 2 ^ 64 - 1 - n % 2 ^ 64

abbrev pub to_i64 : ℕ → ℤ
to_i64 w = if ltb w (2 ^ 63) then pos w else negsuc (2 ^ 64 - 1 - w)

-- `int32(z)` of a wider signed integer.
abbrev pub wrap_i32 : ℤ → ℤ
wrap_i32 z = to_i32 (to_u32 z)

-- The range of an int32 and of an int64.
abbrev pub IsI32 : ℤ → Type 0
IsI32 (pos n) = n < 2 ^ 31
IsI32 (negsuc n) = n < 2 ^ 31

abbrev pub IsI64 : ℤ → Type 0
IsI64 (pos n) = n < 2 ^ 63
IsI64 (negsuc n) = n < 2 ^ 63

pub to_i32-to_u32 : (z : ℤ) → IsI32 z → to_i32 (to_u32 z) ≡ z
to_i32-to_u32 (pos n) h = ground arith
to_i32-to_u32 (negsuc n) h = ground arith

pub to_i64-to_u64 : (z : ℤ) → IsI64 z → to_i64 (to_u64 z) ≡ z
to_i64-to_u64 (pos n) h = ground arith
to_i64-to_u64 (negsuc n) h = ground arith

pub to_u32-to_i32 : (w : ℕ) → w < 2 ^ 32 → to_u32 (to_i32 w) ≡ w
to_u32-to_i32 w h = ground arith

-- `uint32` addition, subtraction and multiplication; a left shift and an arithmetic right shift.
abbrev pub add32 : ℕ → ℕ → ℕ
add32 a b = (a + b) % 2 ^ 32

abbrev pub sub32 : ℕ → ℕ → ℕ
sub32 a b = (a + 2 ^ 32 - b) % 2 ^ 32

abbrev pub mul32 : ℕ → ℕ → ℕ
mul32 a b = a * b % 2 ^ 32

abbrev pub shl32 : ℕ → ℕ → ℕ
shl32 a k = a * 2 ^ k % 2 ^ 32

abbrev pub shr : ℕ → ℕ → ℕ
shr a k = a / 2 ^ k

abbrev pub sar : ℤ → ℕ → ℤ
sar (pos n) k = pos (n / 2 ^ k)
sar (negsuc n) k = negsuc (n / 2 ^ k)
