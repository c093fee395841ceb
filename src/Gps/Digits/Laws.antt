-- ===== src/Gps/Digits/Laws.antt =====
-- The digit loops against plain decimal numbers.
use golfer.Prelude.{
  ℕ, ◌+◌, ◌*◌, ◌-◌, ◌≤◌, ◌<◌, ◌≡◌, refl, ◌≢◌, ◌↔◌, some, List, [], ◌∷◌, All, arith, u32_mod, ◌∙◌,
  ap,
}
use golfer.Gps.Digits.{digits_loop, parse_digits}

abbrev pub IsDigit : ℕ → Type 0
IsDigit byte = (48 ≤ byte) × (byte ≤ 57)

-- The number that digits stand for, after a number that was read already.
abbrev pub decimal : List ℕ → ℕ → ℕ
decimal [] value = value
decimal (byte ∷ rest) value = decimal rest (value * 10 + (byte - 48))

decimal-ge : (bytes : List ℕ) (value : ℕ) → value ≤ decimal bytes value
decimal-ge [] value = omega arith
decimal-ge (byte ∷ rest) value = omega (arith, decimal-ge rest (value * 10 + (byte - 48)))

digits_loop-suc :
    (modulus byte : ℕ) (rest : List ℕ) (value n : ℕ)
    → digits_loop modulus (byte ∷ rest) value ≡ some n
    → IsDigit byte
      × (value * 10 + (byte - 48) < modulus)
      × (digits_loop modulus rest (value * 10 + (byte - 48)) ≡ some n)
unfolding digits_loop
digits_loop-suc modulus byte rest value n h = ground arith

pub digits_loop-some :
    (modulus : ℕ) (bytes : List ℕ) (value n : ℕ)
    → value < modulus
    → digits_loop modulus bytes value ≡ some n
    → All IsDigit bytes × (decimal bytes value ≡ n) × (n < modulus)
digits_loop-some modulus [] value n hv h = unfold digits_loop in ground arith
digits_loop-some modulus (byte ∷ rest) value n hv h =
    let (digit, fits, more) = digits_loop-suc modulus byte rest value n h in
    let (digits, e, lt) = digits_loop-some modulus rest (value * 10 + (byte - 48)) n fits more in
    ((digit, digits), e, lt)

some-digits_loop :
    (modulus : ℕ) (bytes : List ℕ) (value : ℕ)
    → All IsDigit bytes
    → decimal bytes value < modulus
    → digits_loop modulus bytes value ≡ some (decimal bytes value)
unfolding digits_loop
some-digits_loop modulus [] value h lt = refl
some-digits_loop modulus (byte ∷ rest) value h lt = ground (
  arith,
  decimal-ge rest (value * 10 + (byte - 48)),
  some-digits_loop modulus rest (value * 10 + (byte - 48)) h.1,
)

-- `parse_digits` accepts exactly the non-empty rows of digits whose number fits a `u32`, and gives
-- that number.
pub parse_digits_iff :
    (bytes : List ℕ) (n : ℕ)
    → (parse_digits bytes ≡ some n)
      ↔ ((bytes ≢ []) × All IsDigit bytes × (decimal bytes 0 ≡ n) × (n < u32_mod))
unfolding parse_digits
parse_digits_iff [] n = (λ h. cc, λ h. absurd (h.0 refl))
parse_digits_iff (byte ∷ rest) n = (
  λ h.
      let (digits, e, lt) = digits_loop-some u32_mod (byte ∷ rest) 0 n (omega arith) h in
      (λ none_left. cc, digits, e, lt),
  λ h. some-digits_loop u32_mod (byte ∷ rest) 0 h.1 (omega arith) ∙ ap some h.2,
)
