-- ===== src/Base/Word.antt =====
-- Conversions of C: to an unsigned width by dropping high bits, to a signed width by reading the
-- top bit as a sign (as every compiler for the targets does), and the two right shifts.
use mlkem_c_embedded.Base.Tests.{ltb, if◌then◌else◌}
use mlkem_c_embedded.Base.Int.{ℤ, pos, negsuc, abs}
use Prim.Native.Nat.{ℕ, ◌-◌, ◌*◌, ◌/◌, ◌%◌, ◌^◌, ◌<◌}
use mathlib.Core.Path.{◌≡◌, refl}
use native.Mathlib.Omega.{arith}

-- The bit pattern of an integer at an unsigned width: its residue.
abbrev pub u8 : ℤ → ℕ
u8 (pos n) = n % 2 ^ 8
u8 (negsuc n) = 2 ^ 8 - 1 - n % 2 ^ 8

abbrev pub u16 : ℤ → ℕ
u16 (pos n) = n % 2 ^ 16
u16 (negsuc n) = 2 ^ 16 - 1 - n % 2 ^ 16

abbrev pub u32 : ℤ → ℕ
u32 (pos n) = n % 2 ^ 32
u32 (negsuc n) = 2 ^ 32 - 1 - n % 2 ^ 32

abbrev pub u64 : ℤ → ℕ
u64 (pos n) = n % 2 ^ 64
u64 (negsuc n) = 2 ^ 64 - 1 - n % 2 ^ 64

-- The integer that a bit pattern of a signed width stands for.
abbrev pub signed16 : ℕ → ℤ
signed16 w = if ltb w (2 ^ 15) then pos w else negsuc (2 ^ 16 - w - 1)

abbrev pub signed32 : ℕ → ℤ
signed32 w = if ltb w (2 ^ 31) then pos w else negsuc (2 ^ 32 - w - 1)

-- Conversion to `int16_t` and `int32_t`.
unfoldable pub int16 : ℤ → ℤ
int16 a = signed16 (u16 a)

unfoldable pub int32 : ℤ → ℤ
int32 a = signed32 (u32 a)

infixl 55 ◌<<<◌ ◌>>>◌ ◌>>ℤ◌
abbrev pub ◌<<<◌ : ℕ → ℕ → ℕ
x <<< k = x * 2 ^ k

abbrev pub ◌>>>◌ : ℕ → ℕ → ℕ
x >>> k = x / 2 ^ k

-- The arithmetic shift rounds towards minus infinity.
abbrev pub ◌>>ℤ◌ : ℤ → ℕ → ℤ
pos n >>ℤ k = pos (n / 2 ^ k)
negsuc n >>ℤ k = negsuc (n / 2 ^ k)

-- `IsInt16 a`: a value of `int16_t`.
abbrev pub IsInt16 : ℤ → Type 0
IsInt16 (pos n) = n < 2 ^ 15
IsInt16 (negsuc n) = n < 2 ^ 15

abbrev pub IsInt32 : ℤ → Type 0
IsInt32 (pos n) = n < 2 ^ 31
IsInt32 (negsuc n) = n < 2 ^ 31

pub abs-IsInt16 : (a : ℤ) → abs a < 2 ^ 15 → IsInt16 a
abs-IsInt16 (pos n) h = h
abs-IsInt16 (negsuc n) h = omega arith

pub int16-id : (a : ℤ) → abs a < 2 ^ 15 → int16 a ≡ a
unfolding int16
int16-id (pos n) h = ground arith
int16-id (negsuc n) h = ground arith

pub int32-id : (a : ℤ) → abs a < 2 ^ 31 → int32 a ≡ a
unfolding int32
int32-id (pos n) h = ground arith
int32-id (negsuc n) h = ground arith

pub int16-IsInt16 : (a : ℤ) → IsInt16 (int16 a)
unfolding int16
int16-IsInt16 (pos n) = ground arith
int16-IsInt16 (negsuc n) = ground arith

minus_one : int16 (pos 65535) ≡ negsuc 0
unfolding int16
minus_one = refl
