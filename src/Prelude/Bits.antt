-- ===== src/Prelude/Bits.antt =====
-- Laws of `bit_and`, `bit_or` and `bit_xor` at variables, from the digit recursion that the native
-- operations stand for.
use Prim.Native.Nat.{
  ℕ, zero, suc, ◌+◌, ◌-◌, ◌*◌, ◌/◌, ◌%◌, ◌^◌, ◌≤◌, ◌<◌, min, max, digits, bitwise, differ, bit_and,
  bit_or, bit_xor, bit_and-bitwise, bit_or-bitwise, bit_xor-bitwise,
}
use mathlib.Core.Path.{◌≡◌, refl, ap}
use native.Mathlib.Omega.{arith}
use native.Mathlib.Nat.{le_refl, pow-suc, one-le-pow}

-- Any fuel that covers the first word gives the same digits.
module _ (unit : ℕ → ℕ) (digit : ℕ → ℕ → ℕ) where
  digits_fuel :
      (less more x y : ℕ)
      → x ≤ less
      → x ≤ more
      → digits unit digit less x y ≡ digits unit digit more x y
  digits_fuel zero zero x y enough enough' = refl
  digits_fuel (suc less) (suc more) zero y enough enough' = refl
  digits_fuel (suc less) (suc more) (suc x) y enough enough' =
      rw (digits_fuel less more (suc x / 2) (y / 2) (omega arith) (omega arith))
  digits_fuel zero (suc more) zero y enough enough' = refl
  digits_fuel (suc less) zero zero y enough enough' = refl
  digits_fuel zero (suc more) (suc x) y enough enough' = absurd (omega arith)
  digits_fuel (suc less) zero (suc x) y enough enough' = absurd (omega arith)

  bitwise-suc :
      (x y : ℕ)
      → bitwise unit digit (suc x) y
        ≡ bitwise unit digit (suc x / 2) (y / 2) * 2 + digit (suc x % 2) (y % 2)
  bitwise-suc x y =
      omega (arith, digits_fuel x (suc x / 2) (suc x / 2) (y / 2) (omega arith) (le_refl _))

-- One binary digit at x time.
bit_or_step : (x y : ℕ) → bit_or x y ≡ bit_or (x / 2) (y / 2) * 2 + max (x % 2) (y % 2)
bit_or_step zero y = simp bit_or-bitwise (omega arith)
bit_or_step (suc x) y = simp bit_or-bitwise (bitwise-suc (λ d. d) max x y)

bit_and_step : (x y : ℕ) → bit_and x y ≡ bit_and (x / 2) (y / 2) * 2 + min (x % 2) (y % 2)
bit_and_step zero y = simp bit_and-bitwise (omega arith)
bit_and_step (suc x) y = simp bit_and-bitwise (bitwise-suc (λ d. 0) min x y)

differ_digit : (x y : ℕ) → x < 2 → y < 2 → differ x y ≡ (x + y) % 2
differ_digit zero zero p q = refl
differ_digit zero (suc zero) p q = refl
differ_digit zero (suc (suc y)) p q = absurd (omega arith)
differ_digit (suc zero) zero p q = refl
differ_digit (suc zero) (suc zero) p q = refl
differ_digit (suc zero) (suc (suc y)) p q = absurd (omega arith)
differ_digit (suc (suc x)) y p q = absurd (omega arith)

bit_xor-differ : (x y : ℕ) → bit_xor x y ≡ bit_xor (x / 2) (y / 2) * 2 + differ (x % 2) (y % 2)
bit_xor-differ zero y = simp bit_xor-bitwise (omega (arith, differ_digit 0 (y % 2)))
bit_xor-differ (suc x) y = simp bit_xor-bitwise (bitwise-suc (λ d. d) differ x y)

pub bit_xor_step : (x y : ℕ) → bit_xor x y ≡ bit_xor (x / 2) (y / 2) * 2 + (x % 2 + y % 2) % 2
bit_xor_step x y = omega (arith, bit_xor-differ x y, differ_digit (x % 2) (y % 2))

-- The exclusive or of two words of `k` bits is x word of `k` bits.
pub bit_xor-lt : (k x y : ℕ) → x < 2 ^ k → y < 2 ^ k → bit_xor x y < 2 ^ k
bit_xor-lt zero zero zero p q = omega arith
bit_xor-lt zero (suc x) y p q = absurd (omega arith)
bit_xor-lt zero zero (suc y) p q = absurd (omega arith)
bit_xor-lt (suc k) x y p q =
    let two_pow = pow-suc 2 k in
    omega
      (arith, two_pow, bit_xor_step x y, bit_xor-lt k (x / 2) (y / 2) (omega arith) (omega arith))

-- Exclusive or with x word can be undone.
pub bit_xor_cancel : (k x y : ℕ) → x < 2 ^ k → y < 2 ^ k → bit_xor (bit_xor x y) y ≡ x
bit_xor_cancel zero zero zero p q = refl
bit_xor_cancel zero (suc x) y p q = absurd (omega arith)
bit_xor_cancel zero zero (suc y) p q = absurd (omega arith)
bit_xor_cancel (suc k) x y p q =
    let two_pow = pow-suc 2 k in
    let half = bit_xor (x / 2) (y / 2) in
    let ih = bit_xor_cancel k (x / 2) (y / 2) (omega arith) (omega arith) in
    let first = bit_xor_step x y in
    let quotient : bit_xor x y / 2 ≡ half = omega arith in
    let second = bit_xor_step (bit_xor x y) y in
    let inner : bit_xor (bit_xor x y / 2) (y / 2) ≡ x / 2 = rw quotient ih in omega arith

bit_or-zero : (w x : ℕ) → x ≤ w → bit_or x 0 ≡ x
bit_or-zero w zero h = refl
bit_or-zero zero (suc x) h = absurd (omega arith)
bit_or-zero (suc w) (suc x) h =
    omega (arith, bit_or_step (suc x) 0, bit_or-zero w (suc x / 2) (omega arith))

bit_and-zero : (w x : ℕ) → x ≤ w → bit_and x 0 ≡ 0
bit_and-zero w zero h = refl
bit_and-zero zero (suc x) h = absurd (omega arith)
bit_and-zero (suc w) (suc x) h =
    omega (arith, bit_and_step (suc x) 0, bit_and-zero w (suc x / 2) (omega arith))

mul-two-pow-suc : (hi w : ℕ) → hi * 2 ^ suc w ≡ 2 * (hi * 2 ^ w)
mul-two-pow-suc hi w = omega (arith, ap (λ (t : ℕ). hi * t) (pow-suc 2 w))

-- `(hi << w) | lo` is x sum where `lo` fits `w` bits.
pub bit_or_fields : (w hi lo : ℕ) → lo < 2 ^ w → bit_or (hi * 2 ^ w) lo ≡ hi * 2 ^ w + lo
bit_or_fields zero hi lo fits = ground (arith, bit_or-zero hi hi)
bit_or_fields (suc w) hi lo fits = ground (
  arith,
  bit_or_step (hi * 2 ^ suc w) lo,
  mul-two-pow-suc hi w,
  bit_or_fields w hi (lo / 2) (omega arith),
)

bit_and_fields : (w hi lo : ℕ) → lo < 2 ^ w → bit_and (hi * 2 ^ w + lo) (2 ^ w - 1) ≡ lo
bit_and_fields zero hi lo fits =
    omega (arith, bit_and-zero (hi * 1 + lo) (hi * 1 + lo) (omega arith))
bit_and_fields (suc w) hi lo fits = ground (
  arith,
  bit_and_step (hi * 2 ^ suc w + lo) (2 ^ suc w - 1),
  mul-two-pow-suc hi w,
  pow-suc 2 w,
  bit_and_fields w hi (lo / 2) (omega arith),
)

-- A mask of `w` low bits is the remainder by 2 ^ w.
pub bit_and_mask : (w x : ℕ) → bit_and x (2 ^ w - 1) ≡ x % 2 ^ w
bit_and_mask w x = ground (arith, one-le-pow w 2, bit_and_fields w (x / 2 ^ w) (x % 2 ^ w))

bit_or_comm_fuel : (fuel x y : ℕ) → x ≤ fuel → y ≤ fuel → bit_or x y ≡ bit_or y x
bit_or_comm_fuel fuel zero zero hx hy = refl
bit_or_comm_fuel zero zero (suc y) hx hy = absurd (omega arith)
bit_or_comm_fuel zero (suc x) y hx hy = absurd (omega arith)
bit_or_comm_fuel (suc fuel) zero (suc y) hx hy =
    let half = bit_or_comm_fuel fuel (0 / 2) (suc y / 2) (omega arith) (omega arith) in
    omega (arith, bit_or_step 0 (suc y), bit_or_step (suc y) 0)
bit_or_comm_fuel (suc fuel) (suc x) y hx hy =
    let half = bit_or_comm_fuel fuel (suc x / 2) (y / 2) (omega arith) (omega arith) in
    omega (arith, bit_or_step (suc x) y, bit_or_step y (suc x))

bit_or_comm : (x y : ℕ) → bit_or x y ≡ bit_or y x
bit_or_comm x y = bit_or_comm_fuel (x + y) x y (omega arith) (omega arith)

-- Three bytes joined, the lowest first.
pub bit_or_three :
    (low mid top : ℕ)
    → low < 256
    → mid < 256
    → bit_or (bit_or low (mid * 2 ^ 8)) (top * 2 ^ 16) ≡ low + 256 * mid + 65536 * top
bit_or_three low mid top hl hm =
    let pair = bit_or_fields 8 mid low hl in
    let pair' = bit_or_comm low (mid * 2 ^ 8) in
    let all = bit_or_fields 16 top (bit_or low (mid * 2 ^ 8)) (omega arith) in
    let all' = bit_or_comm (bit_or low (mid * 2 ^ 8)) (top * 2 ^ 16) in omega arith
