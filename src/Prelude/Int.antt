-- ===== src/Prelude/Int.antt =====
-- Signed integers over the native numbers, under the library's names, with the range tests and the
-- two's complement bit patterns of `i16` and `i32`.
use Prim.Native.Nat.{ℕ, suc, ◌-◌, ◌*◌, ◌≤◌, ◌<◌}
use mathlib.Core.Path.{◌≡◌}
use mathlib.Core.Bool.{Bool, false}
use native.Mathlib.Omega.{arith}
use golfer.Prelude.Tests.{ltb, leb, ◌==◌, if◌then◌else◌}

-- `negsuc n` is -(n + 1).
pub data ℤ : Type 0 where
  pos : ℕ → ℤ
  negsuc : ℕ → ℤ

abbrev pos_part : ℤ → ℕ
pos_part (pos n) = n
pos_part (negsuc n) = 0

abbrev neg_part : ℤ → ℕ
neg_part (pos n) = 0
neg_part (negsuc n) = suc n

-- a - b, as an integer.
abbrev sub_ℕ : ℕ → ℕ → ℤ
sub_ℕ a b = if leb b a then pos (a - b) else negsuc (b - a - 1)

abbrev pub neg : ℤ → ℤ
neg a = sub_ℕ (neg_part a) (pos_part a)

abbrev pub equal_ints : ℤ → ℤ → Bool
equal_ints (pos m) (pos n) = m == n
equal_ints (pos m) (negsuc n) = false
equal_ints (negsuc m) (pos n) = false
equal_ints (negsuc m) (negsuc n) = m == n

-- The test -limit ≤ a ≤ limit.
abbrev pub within : ℕ → ℤ → Bool
within limit (pos n) = leb n limit
within limit (negsuc n) = ltb n limit

-- The same as a statement.
abbrev pub Within : ℕ → ℤ → Type 0
Within limit (pos n) = n ≤ limit
Within limit (negsuc n) = n < limit

-- The values of a signed type whose unsigned patterns are below 2 * half.
abbrev pub Fits : ℕ → ℤ → Type 0
Fits half (pos n) = n < half
Fits half (negsuc n) = n < half

abbrev pub i16_half : ℕ
i16_half = 0x8000

abbrev pub i32_half : ℕ
i32_half = 0x8000_0000

-- The bit pattern of a signed value.
unfoldable pub to_bits : ℕ → ℤ → ℕ
to_bits half (pos n) = n
to_bits half (negsuc n) = 2 * half - suc n

unfoldable pub of_bits : ℕ → ℕ → ℤ
of_bits half w = if ltb w half then pos w else negsuc (2 * half - w - 1)

pub of_bits-to_bits : (half : ℕ) (a : ℤ) → Fits half a → of_bits half (to_bits half a) ≡ a
unfolding of_bits to_bits
of_bits-to_bits half (pos n) h = ground arith
of_bits-to_bits half (negsuc n) h = ground arith

pub to_bits-lt : (half : ℕ) (a : ℤ) → Fits half a → to_bits half a < 2 * half
unfolding to_bits
to_bits-lt half (pos n) h = omega arith
to_bits-lt half (negsuc n) h = omega arith

pub to_bits-of_bits : (half w : ℕ) → w < 2 * half → to_bits half (of_bits half w) ≡ w
unfolding of_bits to_bits
to_bits-of_bits half w h = ground arith
