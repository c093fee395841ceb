-- ===== src/Display/Coordinate.antt =====
-- A coordinate as the general page writes it, read back by the decimal reader of the GPS code.
use golfer.Prelude.{
  ℕ, suc, ◌+◌, ◌*◌, ◌/◌, ◌%◌, ◌-◌, ◌<◌, ◌≡◌, ◌≢◌, refl, ap, ◌∙◌, false, some, List, [], ◌∷◌, ◌++◌,
  All, length, arith, ◌==◌, u32_mod, take, drop, take-append, ==_ne, lt→ltb,
}
use golfer.Prelude.Int.{ℤ, pos, negsuc, i32_half, Within}
use golfer.Prelude.Format.{decimal_text, padded}
use golfer.Gps.Digits.{parse_digits, dot_index, scaled_fraction}
use golfer.Gps.Digits.Laws.{IsDigit, parse_digits_iff}
use golfer.Gps.Digits.Fraction.{scaled_fraction_iff}
use golfer.Gps.Digits.Printed.{
  digits_within-digits, decimal-digits_within, digits_within-nonempty, padded-digits, scaled-padded,
}
use golfer.Gps.Decimal.{parse_magnitude, parse_decimal_fixed_i32, i32_of_u32, scale_loop}
use golfer.Display.Ui.{absolute_text, coordinate_value}

dot_index-after :
    (whole rest : List ℕ) → All IsDigit whole → dot_index (whole ++ (b'.' ∷ rest)) ≡ length whole
unfolding dot_index
dot_index-after [] rest h = refl
dot_index-after (x ∷ whole) rest h = ground (arith, dot_index-after whole rest h.1)

drop-after : (whole rest : List ℕ) → drop (suc (length whole)) (whole ++ (b'.' ∷ rest)) ≡ rest
drop-after [] rest = refl
drop-after (x ∷ whole) rest = drop-after whole rest

-- The reading of a text whose parts are known.
parse_magnitude-known :
    (text whole rest : List ℕ) (n : ℕ)
    → (length text == 0) ≡ false
    → (dot_index text == 0) ≡ false
    → take (dot_index text) text ≡ whole
    → drop (dot_index text + 1) text ≡ rest
    → parse_digits whole ≡ some (n / 10_000_000)
    → scaled_fraction u32_mod 7 rest ≡ some (n % 10_000_000)
    → n < u32_mod
    → parse_magnitude 7 text ≡ some n
unfolding parse_magnitude scale_loop scaled_fraction
parse_magnitude-known text whole rest n h0 h1 h2 h3 hw hf h =
    let e : n / 10_000_000 * 10_000_000 + n % 10_000_000 ≡ n = omega arith in
    rw (
      h0,
      h1,
      h2,
      h3,
      hw,
      hf,
      lt→ltb (n / 10_000_000 * 10_000_000) u32_mod (omega arith),
      e,
      lt→ltb n u32_mod h,
    )

-- Digits, a dot and as many digits as places, in the limits of a `u32`.
parse_magnitude-parts :
    (whole rest : List ℕ) (n : ℕ)
    → whole ≢ []
    → All IsDigit whole
    → parse_digits whole ≡ some (n / 10_000_000)
    → scaled_fraction u32_mod 7 rest ≡ some (n % 10_000_000)
    → n < u32_mod
    → parse_magnitude 7 (whole ++ (b'.' ∷ rest)) ≡ some n
parse_magnitude-parts [] rest n some_digit digits hw hf h = absurd (some_digit refl)
parse_magnitude-parts (x ∷ tail) rest n some_digit digits hw hf h =
    let whole = x ∷ tail in
    let text = whole ++ (b'.' ∷ rest) in
    let at = dot_index-after whole rest digits in
    parse_magnitude-known text whole rest n (ground arith) (ground (arith, at))
      (ap (λ i. take i text) at ∙ take-append (length whole) whole (b'.' ∷ rest) refl)
      (ap (λ i. drop (i + 1) text) at
        ∙ ap (λ i. drop i text) (let e : length whole + 1 ≡ suc (length whole) = omega arith in e)
        ∙ drop-after whole rest)
      hw hf h

parse_magnitude-absolute_text : (n : ℕ) → n < u32_mod → parse_magnitude 7 (absolute_text n) ≡ some n
parse_magnitude-absolute_text n h =
    let whole = decimal_text (n / 10_000_000) in
    let digits = digits_within-digits 19 (n / 10_000_000) in
    let some_digit = digits_within-nonempty 19 (n / 10_000_000) in
    parse_magnitude-parts whole (padded 7 (n % 10_000_000)) n some_digit digits
      ((parse_digits_iff whole (n / 10_000_000)).1
        (some_digit, digits, decimal-digits_within 19 (n / 10_000_000) (omega arith), omega arith))
      ((scaled_fraction_iff u32_mod 7 (padded 7 (n % 10_000_000)) (n % 10_000_000) (omega arith)).1
        (padded-digits 7 (n % 10_000_000), scaled-padded 7 (n % 10_000_000) (omega arith)))
      h

-- A text that starts with a digit has no sign.
unsigned-read :
    (whole rest : List ℕ) (n : ℕ)
    → whole ≢ []
    → All IsDigit whole
    → parse_magnitude 7 (whole ++ rest) ≡ some n
    → parse_decimal_fixed_i32 (whole ++ rest) 7 ≡ i32_of_u32 n
unfolding parse_decimal_fixed_i32
unsigned-read [] rest n some_digit digits h = absurd (some_digit refl)
unsigned-read (x ∷ whole) rest n some_digit digits h =
    rw (==_ne x b'-' (omega (arith, digits.0)), ==_ne x b'+' (omega (arith, digits.0)), h)

negative-read :
    (m : ℕ)
    → m < i32_half - 1
    → parse_decimal_fixed_i32 (b'-' ∷ absolute_text (suc m)) 7 ≡ some (negsuc m)
unfolding parse_decimal_fixed_i32
negative-read m h =
    rw (parse_magnitude-absolute_text (suc m) (omega arith), lt→ltb (suc m) i32_half (omega arith))
      (ap some (ground arith))

-- The firmware's own reader of decimal fields reads a displayed coordinate as the coordinate, exactly,
-- for every value of an `i32` but the least.
pub parse-coordinate_value :
    (z : ℤ) → Within (i32_half - 1) z → parse_decimal_fixed_i32 (coordinate_value z) 7 ≡ some z
unfolding coordinate_value
parse-coordinate_value (pos n) h =
    unsigned-read (decimal_text (n / 10_000_000)) _ n (digits_within-nonempty 19 (n / 10_000_000))
      (digits_within-digits 19 (n / 10_000_000)) (parse_magnitude-absolute_text n (omega arith))
    ∙ rw (lt→ltb n i32_half (omega arith))
parse-coordinate_value (negsuc n) h = negative-read n h
