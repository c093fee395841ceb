-- ===== src/Gps/Digits/Printed.antt =====
-- The digits of `core::fmt` read as numbers.
use golfer.Prelude.{
  ℕ, zero, suc, ◌+◌, ◌*◌, ◌/◌, ◌%◌, ◌-◌, ◌^◌, ◌<◌, ◌≡◌, refl, List, [], ◌∷◌, ◌++◌, All, length,
  arith, if-cases, ltb, length-append, ◌∙◌, ◌≢◌,
}
use native.Mathlib.Nat.{pow-suc}
use golfer.Prelude.Format.{digits_within, padded}
use golfer.Gps.Digits.Laws.{IsDigit, decimal}
use golfer.Gps.Digits.Fraction.{scaled}

-- Digits that end in one more digit.
decimal-snoc :
    (xs : List ℕ) (d value : ℕ) → decimal (xs ++ (d ∷ [])) value ≡ decimal xs value * 10 + (d - 48)
decimal-snoc [] d value = refl
decimal-snoc (x ∷ xs) d value = decimal-snoc xs d (value * 10 + (x - 48))

All-snoc : (xs : List ℕ) (d : ℕ) → All IsDigit xs → IsDigit d → All IsDigit (xs ++ (d ∷ []))
All-snoc [] d h hd = (hd, tt)
All-snoc (x ∷ xs) d h hd = (h.0, All-snoc xs d h.1 hd)

ascii_of-IsDigit : (n : ℕ) → n < 10 → IsDigit (0x30 + n)
ascii_of-IsDigit n h = (omega arith, omega arith)

pub digits_within-digits : (fuel n : ℕ) → All IsDigit (digits_within fuel n)
unfolding digits_within
digits_within-digits zero n = (ascii_of-IsDigit (n % 10) (omega arith), tt)
digits_within-digits (suc fuel) n =
    if-cases (All IsDigit) (ltb n 10) (λ e. (ascii_of-IsDigit n (ground arith), tt))
      (λ e.
        All-snoc (digits_within fuel (n / 10)) (0x30 + n % 10) (digits_within-digits fuel (n / 10))
          (ascii_of-IsDigit (n % 10) (omega arith)))

-- With enough fuel the digits stand for the number.
pub decimal-digits_within : (fuel n : ℕ) → n < 10 ^ suc fuel → decimal (digits_within fuel n) 0 ≡ n
unfolding digits_within
decimal-digits_within zero n h = omega (arith, h)
decimal-digits_within (suc fuel) n h =
    if-cases (λ (t : List ℕ). decimal t 0 ≡ n) (ltb n 10) (λ e. omega arith)
      (λ e. omega (
        arith,
        decimal-snoc (digits_within fuel (n / 10)) (0x30 + n % 10) 0,
        decimal-digits_within fuel (n / 10) (omega (arith, pow-suc 10 (suc fuel), h)),
      ))

pub padded-digits : (width n : ℕ) → All IsDigit (padded width n)
padded-digits zero n = tt
padded-digits (suc width) n =
    All-snoc (padded width (n / 10)) (0x30 + n % 10) (padded-digits width (n / 10))
      (ascii_of-IsDigit (n % 10) (omega arith))

-- On exactly that many digits, the number of some places is the number of the digits.
scaled-decimal :
    (places : ℕ) (xs : List ℕ) (value : ℕ)
    → length xs ≡ places
    → scaled places xs value ≡ decimal xs value
scaled-decimal zero [] value e = refl
scaled-decimal zero (x ∷ xs) value e = absurd (omega arith)
scaled-decimal (suc places) [] value e = absurd (omega arith)
scaled-decimal (suc places) (x ∷ xs) value e =
    scaled-decimal places xs (value * 10 + (x - 48)) (omega arith)

decimal-padded : (width n : ℕ) → n < 10 ^ width → decimal (padded width n) 0 ≡ n
decimal-padded zero n h = omega (arith, h)
decimal-padded (suc width) n h = omega (
  arith,
  decimal-snoc (padded width (n / 10)) (0x30 + n % 10) 0,
  decimal-padded width (n / 10) (omega (arith, pow-suc 10 width, h)),
)

pub length-padded : (width n : ℕ) → length (padded width n) ≡ width
length-padded zero n = refl
length-padded (suc width) n = omega (
  arith,
  length-append (padded width (n / 10)) ((48 + n % 10) ∷ []),
  length-padded width (n / 10),
)

pub scaled-padded : (width n : ℕ) → n < 10 ^ width → scaled width (padded width n) 0 ≡ n
scaled-padded width n h =
    scaled-decimal width (padded width n) 0 (length-padded width n) ∙ decimal-padded width n h

pub digits_within-nonempty : (fuel n : ℕ) → digits_within fuel n ≢ []
unfolding digits_within
digits_within-nonempty zero n = λ e. cc
digits_within-nonempty (suc fuel) n =
    if-cases (λ (t : List ℕ). t ≢ []) (ltb n 10) (λ h e. cc)
      (λ h. snoc-nonempty (digits_within fuel (n / 10)) (0x30 + n % 10))
  where
    snoc-nonempty : (xs : List ℕ) (d : ℕ) → (xs ++ (d ∷ [])) ≢ []
    snoc-nonempty [] d = λ e. cc
    snoc-nonempty (x ∷ xs) d = λ e. cc
