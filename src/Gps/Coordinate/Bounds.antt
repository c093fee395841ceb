-- ===== src/Gps/Coordinate/Bounds.antt =====
-- The range of a parsed coordinate (firmware/golfer/src/gps.rs).
use golfer.Gps.Digits.Fraction.{scaled, scaled_fraction-lt}
use golfer.Prelude.{
  ==_iff, ℕ, ◌+◌, ◌-◌, ◌*◌, ◌/◌, ◌≤◌, ◌<◌, ◌≡◌, true, Bool, none, some, List, [], ◌∷◌, >>=-eq-some,
  arith, ltb, if◌then◌else◌, none-some, suc, ap, checked_add-eq-some, checked_mul-eq-some, false,
  guard-eq-some, ltb→lt, some-eq, subst, sym, zero, ◌&&◌, ◌==◌, ◌||◌, ◌∙◌, ◌⊎◌, inl, inr,
  Bool-cases,
}
use golfer.Prelude.Int.{ℤ, pos, neg, Within}
use golfer.Gps.Digits.{parse_digits, dot_index}
use golfer.Gps.Decimal.{i32_of_u32}
use golfer.Gps.Coordinate.{
  max_degrees, signed_by, parse_coordinate_e7, scale_fraction_to_e7, guard, leb, not, take, drop,
  length, checked_mul, u32_mod, checked_add,
}

neg-Within : (bound n : ℕ) → n ≤ bound → Within bound (neg (pos n))
neg-Within bound zero h = omega arith
neg-Within bound (suc n) h = ground arith

-- Two tests on the letter that choose between a value and its negative.
chosen-Within :
    (bound n : ℕ) (minus plus : Bool) (z : ℤ)
    → n ≤ bound
    → (if minus then some (neg (pos n)) else if plus then some (pos n) else none) ≡ some z
    → Within bound z
chosen-Within bound n true plus z h e = subst (Within bound) (some-eq e) (neg-Within bound n h)
chosen-Within bound n false true z h e = subst (Within bound) (some-eq e) h
chosen-Within bound n false false z h e = absurd (none-some e)

signed_by-Within :
    (bound : ℕ) (hemisphere : List ℕ) (n : ℕ) (z : ℤ)
    → n ≤ bound
    → signed_by hemisphere (pos n) ≡ some z
    → Within bound z
unfolding signed_by
signed_by-Within bound [] n z h e = absurd (none-some e)
signed_by-Within bound (letter ∷ []) n z h e =
    chosen-Within bound n (letter == b'S' || letter == b'W') (letter == b'N' || letter == b'E') z h
      e
signed_by-Within bound (letter ∷ next ∷ rest) n z h e = absurd (none-some e)

-- What the tests on the degrees leave, in units of 10^-7 degrees.
degrees-bound :
    (limit degrees minutes_e7 e7 : ℕ)
    → not (ltb limit degrees || (degrees == limit && not (minutes_e7 == 0))) ≡ true
    → minutes_e7 < 600000000
    → degrees * 10000000 + minutes_e7 / 60 ≡ e7
    → e7 ≤ limit * 10000000
degrees-bound limit degrees minutes_e7 e7 h lt e = ground arith

minutes-lt :
    (whole scaled fraction minutes_e7 : ℕ)
    → whole < 60
    → fraction < 10000000
    → whole * 10000000 ≡ scaled
    → scaled + fraction ≡ minutes_e7
    → minutes_e7 < 600000000
minutes-lt whole scaled fraction minutes_e7 h lt mul add = omega arith

pos_of : (n : ℕ) (z : ℤ) → i32_of_u32 n ≡ some z → z ≡ pos n
pos_of n z h = ground arith

-- A fraction that is there or not.
fraction-lt :
    (b : Bool) (bytes : List ℕ) (n : ℕ)
    → (if b then scale_fraction_to_e7 bytes else some 0) ≡ some n
    → n < 10000000
fraction-lt true bytes n h =
    unfold scale_fraction_to_e7 in scaled_fraction-lt u32_mod 7 bytes n (omega arith) h
fraction-lt false bytes n h = omega (arith, some-eq h)

-- What is behind a coordinate that is accepted: its limit, and its value before the sign.
parse_coordinate_e7-parts :
    (coordinate hemisphere : List ℕ) (z : ℤ)
    → parse_coordinate_e7 coordinate hemisphere ≡ some z
    → (limit value : ℕ) × (max_degrees hemisphere ≡ some limit)
      × (value ≤ limit * 10000000)
      × (signed_by hemisphere (pos value) ≡ some z)
unfolding parse_coordinate_e7
parse_coordinate_e7-parts coordinate hemisphere z e0 =
    let dot = dot_index coordinate in
    let (_, _, e1) = >>=-eq-some (guard (leb 3 dot)) _ e0 in
    let (degrees, _, e2) = >>=-eq-some (parse_digits (take (dot - 2) coordinate)) _ e1 in
    let (whole, _, e3) = >>=-eq-some (parse_digits (drop (dot - 2) (take dot coordinate))) _ e2 in
    let (_, small, e4) = >>=-eq-some (guard (ltb whole 60)) _ e3 in
    let (fraction, tail, e5) =
      >>=-eq-some
        (if ltb dot (length coordinate)
          then scale_fraction_to_e7 (drop (dot + 1) coordinate)
          else some 0)
        _ e4 in
    let (scaled, mul, e6) = >>=-eq-some (checked_mul u32_mod whole 10000000) _ e5 in
    let (minutes_e7, add, e7) = >>=-eq-some (checked_add u32_mod scaled fraction) _ e6 in
    let (limit, at, e8) = >>=-eq-some (max_degrees hemisphere) _ e7 in
    let (_, inside, e9) =
      >>=-eq-some (guard (not (ltb limit degrees || (degrees == limit && not (minutes_e7 == 0))))) _
        e8 in
    let (scaled_degrees, mul', e10) = >>=-eq-some (checked_mul u32_mod degrees 10000000) _ e9 in
    let (value, add', e11) =
      >>=-eq-some (checked_add u32_mod scaled_degrees (minutes_e7 / 60)) _ e10 in
    let (signed, conv, e12) = >>=-eq-some (i32_of_u32 value) _ e11 in
    let mul1 = checked_mul-eq-some u32_mod whole 10000000 mul in
    let add1 = checked_add-eq-some u32_mod scaled fraction add in
    let mul2 = checked_mul-eq-some u32_mod degrees 10000000 mul' in
    let add2 = checked_add-eq-some u32_mod scaled_degrees (minutes_e7 / 60) add' in
    let lt = fraction-lt (ltb dot (length coordinate)) (drop (dot + 1) coordinate) fraction tail in
    let sixty = ltb→lt whole 60 (guard-eq-some (ltb whole 60) small) in
    let in_limit =
      guard-eq-some (not (ltb limit degrees || (degrees == limit && not (minutes_e7 == 0))))
        inside in
    let minutes = minutes-lt whole scaled fraction minutes_e7 sixty lt mul1.0 add1.0 in
    let e7 = ap (λ (n : ℕ). n + minutes_e7 / 60) mul2.0 ∙ add2.0 in
    let bound = degrees-bound limit degrees minutes_e7 value in_limit minutes e7 in
    (limit, value, at, bound, ap (signed_by hemisphere) (sym (pos_of value signed conv)) ∙ e12)

pub parse_coordinate_e7-Within_limit :
    (coordinate hemisphere : List ℕ) (z : ℤ)
    → parse_coordinate_e7 coordinate hemisphere ≡ some z
    → (limit : ℕ) × (max_degrees hemisphere ≡ some limit) × Within (limit * 10000000) z
parse_coordinate_e7-Within_limit coordinate hemisphere z e =
    let (limit, value, at, bound, signed) = parse_coordinate_e7-parts coordinate hemisphere z e in
    (limit, at, signed_by-Within (limit * 10000000) hemisphere value z bound signed)

-- Where a coordinate with that hemisphere may lie: north and south up to 90 degrees, east and west up
-- to 180, and south and west not above zero.
abbrev pub InHemisphere : List ℕ → ℤ → Type 0
InHemisphere hemisphere z =
    (e7 : ℕ) × (((hemisphere ≡ b'N' ∷ []) × (z ≡ pos e7) × (e7 ≤ 900_000_000))
      ⊎ ((hemisphere ≡ b'S' ∷ []) × (z ≡ neg (pos e7)) × (e7 ≤ 900_000_000))
      ⊎ ((hemisphere ≡ b'E' ∷ []) × (z ≡ pos e7) × (e7 ≤ 1_800_000_000))
      ⊎ ((hemisphere ≡ b'W' ∷ []) × (z ≡ neg (pos e7)) × (e7 ≤ 1_800_000_000)))

module _ (letter limit value : ℕ) (z : ℤ) (limited : max_degrees (letter ∷ []) ≡ some limit)
    (bound : value ≤ limit * 10000000) (signed : signed_by (letter ∷ []) (pos value) ≡ some z) where
  north-InHemisphere : letter ≡ b'N' → InHemisphere (letter ∷ []) z
  unfolding max_degrees signed_by
  north-InHemisphere e =
      let degrees : some 90 ≡ some limit = sym (ap (λ l. max_degrees (l ∷ [])) e) ∙ limited in
      let sign : some (pos value) ≡ some z =
        sym (ap (λ l. signed_by (l ∷ []) (pos value)) e) ∙ signed in
      let within : value ≤ 900000000 = omega (arith, some-eq degrees) in
      (value, inl (ap (λ l. l ∷ []) e, sym (some-eq sign), within))

  south-InHemisphere : letter ≡ b'S' → InHemisphere (letter ∷ []) z
  unfolding max_degrees signed_by
  south-InHemisphere e =
      let degrees : some 90 ≡ some limit = sym (ap (λ l. max_degrees (l ∷ [])) e) ∙ limited in
      let sign : some (neg (pos value)) ≡ some z =
        sym (ap (λ l. signed_by (l ∷ []) (pos value)) e) ∙ signed in
      let within : value ≤ 900000000 = omega (arith, some-eq degrees) in
      (value, inr (inl (ap (λ l. l ∷ []) e, sym (some-eq sign), within)))

  east-InHemisphere : letter ≡ b'E' → InHemisphere (letter ∷ []) z
  unfolding max_degrees signed_by
  east-InHemisphere e =
      let degrees : some 180 ≡ some limit = sym (ap (λ l. max_degrees (l ∷ [])) e) ∙ limited in
      let sign : some (pos value) ≡ some z =
        sym (ap (λ l. signed_by (l ∷ []) (pos value)) e) ∙ signed in
      let within : value ≤ 1800000000 = omega (arith, some-eq degrees) in
      (value, inr (inr (inl (ap (λ l. l ∷ []) e, sym (some-eq sign), within))))

  west-InHemisphere : letter ≡ b'W' → InHemisphere (letter ∷ []) z
  unfolding max_degrees signed_by
  west-InHemisphere e =
      let degrees : some 180 ≡ some limit = sym (ap (λ l. max_degrees (l ∷ [])) e) ∙ limited in
      let sign : some (neg (pos value)) ≡ some z =
        sym (ap (λ l. signed_by (l ∷ []) (pos value)) e) ∙ signed in
      let within : value ≤ 1800000000 = omega (arith, some-eq degrees) in
      (value, inr (inr (inr (ap (λ l. l ∷ []) e, sym (some-eq sign), within))))

  letter-InHemisphere : InHemisphere (letter ∷ []) z
  unfolding max_degrees
  letter-InHemisphere = elim (Bool-cases (letter == b'N')) [
    | inl n ↦ north-InHemisphere ((==_iff letter b'N').0 n)
    | inr n ↦ elim (Bool-cases (letter == b'S')) [
      | inl s ↦ south-InHemisphere ((==_iff letter b'S').0 s)
      | inr s ↦ elim (Bool-cases (letter == b'E')) [
        | inl e ↦ east-InHemisphere ((==_iff letter b'E').0 e)
        | inr e ↦ elim (Bool-cases (letter == b'W')) [
          | inl w ↦ west-InHemisphere ((==_iff letter b'W').0 w)
          | inr w ↦ absurd (none-some (rw (n, s, e, w) at limited))
        ]
      ]
    ]
  ]

hemisphere-InHemisphere :
    (hemisphere : List ℕ) (limit value : ℕ) (z : ℤ)
    → max_degrees hemisphere ≡ some limit
    → value ≤ limit * 10000000
    → signed_by hemisphere (pos value) ≡ some z
    → InHemisphere hemisphere z
unfolding max_degrees
hemisphere-InHemisphere [] limit value z limited bound signed = absurd (none-some limited)
hemisphere-InHemisphere (letter ∷ []) limit value z limited bound signed =
    letter-InHemisphere letter limit value z limited bound signed
hemisphere-InHemisphere (letter ∷ next ∷ rest) limit value z limited bound signed =
    absurd (none-some limited)

-- A coordinate that is accepted has one of the four hemispheres, and lies in it: with N and S within
-- 90 degrees and with E and W within 180, in units of 10^-7 degrees, and with S and W it is not above
-- zero, with N and E not below.
pub parse_coordinate_e7-Within :
    (coordinate hemisphere : List ℕ) (z : ℤ)
    → parse_coordinate_e7 coordinate hemisphere ≡ some z
    → InHemisphere hemisphere z
parse_coordinate_e7-Within coordinate hemisphere z e =
    let (limit, value, at, bound, signed) = parse_coordinate_e7-parts coordinate hemisphere z e in
    hemisphere-InHemisphere hemisphere limit value z at bound signed
