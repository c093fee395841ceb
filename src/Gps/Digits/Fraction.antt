-- ===== src/Gps/Digits/Fraction.antt =====
-- The loops that read a decimal fraction to a fixed number of places (firmware/golfer/src/gps.rs).
use golfer.Prelude.{
  ℕ, zero, suc, ◌+◌, ◌*◌, ◌-◌, ◌^◌, ◌≤◌, ◌<◌, ◌≡◌, refl, ◌↔◌, ap, sym, ◌∙◌, true, false, inl, inr,
  Bool-cases, Option, none, some, ◌>>=◌, List, [], ◌∷◌, All, ltb, arith, lt→ltb, ge→ltb, some-eq,
  none-some,
}
use golfer.Gps.Digits.{is_ascii_digit, fraction_loop, pad_loop, scaled_fraction}
use golfer.Gps.Digits.Laws.{IsDigit}
use native.Mathlib.Nat.{pow-suc, one-le-pow, mul-le-mul_right, le-mul_of_pos_right}

-- The first `places` digits as a number; digits that are not there count as zeros.
abbrev pub scaled : ℕ → List ℕ → ℕ → ℕ
scaled zero bytes value = value
scaled (suc places) [] value = scaled places [] (value * 10)
scaled (suc places) (byte ∷ rest) value = scaled places rest (value * 10 + (byte - 48))

-- Room for `left` more digits below the limit of the type.
abbrev Room : ℕ → ℕ → ℕ → Type 0
Room modulus left value = suc value * 10 ^ left ≤ modulus

Room-suc :
    (modulus left value digit : ℕ)
    → digit ≤ 9
    → Room modulus (suc left) value
    → Room modulus left (value * 10 + digit)
Room-suc modulus left value digit h room = omega (
  arith,
  pow-suc 10 left,
  mul-le-mul_right {m = digit} {n = 9} (10 ^ left) h,
  ap (λ (t : ℕ). suc value * t) (pow-suc 10 left),
)

Room-lt : (modulus left value : ℕ) → Room modulus left value → value < modulus
Room-lt modulus left value room =
    omega
      (arith, le-mul_of_pos_right {m = 10 ^ left} (suc value) (one-le-pow left 10 (omega arith)))

pad_loop-scaled :
    (modulus left value : ℕ)
    → Room modulus left value
    → pad_loop modulus left value ≡ some (scaled left [] value)
unfolding pad_loop
pad_loop-scaled modulus zero value room = refl
pad_loop-scaled modulus (suc left) value room =
    let next = Room-suc modulus left value 0 (omega arith) room in
    let ih = pad_loop-scaled modulus left (value * 10) (omega (arith, next)) in
    ground (arith, Room-lt modulus left (value * 10 + 0) next, ih)

scaled-lt :
    (left : ℕ) (bytes : List ℕ) (value limit : ℕ)
    → All IsDigit bytes
    → Room limit left value
    → scaled left bytes value < limit
scaled-lt zero bytes value limit h room = Room-lt limit 0 value room
scaled-lt (suc left) [] value limit h room =
    scaled-lt left [] (value * 10) limit h
      (omega (arith, Room-suc limit left value 0 (omega arith) room))
scaled-lt (suc left) (byte ∷ rest) value limit h room =
    scaled-lt left rest (value * 10 + (byte - 48)) limit h.1
      (Room-suc limit left value (byte - 48) (omega arith) room)

is_digit : {byte : ℕ} → IsDigit byte → is_ascii_digit byte ≡ true
is_digit h = ground arith

IsDigit-is : (byte : ℕ) → is_ascii_digit byte ≡ true → IsDigit byte
IsDigit-is byte h = ground arith

module _ (modulus places : ℕ) where
  -- The loops from a state on.
  abbrev finish : List ℕ → ℕ → ℕ → Option ℕ
  finish bytes value used =
      fraction_loop modulus places bytes value used >>= λ (v, u). pad_loop modulus (places - u) v

  finish-none :
      (byte : ℕ) (rest : List ℕ) (value used : ℕ)
      → is_ascii_digit byte ≡ false
      → finish (byte ∷ rest) value used ≡ none
  unfolding fraction_loop
  finish-none byte rest value used h = rw h

  finish-used :
      (byte : ℕ) (rest : List ℕ) (value used : ℕ)
      → is_ascii_digit byte ≡ true
      → used < places
      → value * 10 + (byte - 48) < modulus
      → finish (byte ∷ rest) value used ≡ finish rest (value * 10 + (byte - 48)) (used + 1)
  unfolding fraction_loop
  finish-used byte rest value used h lt fits = rw (
    h,
    lt→ltb used places lt,
    lt→ltb (value * 10) modulus (omega arith),
    lt→ltb (value * 10 + (byte - 48)) modulus fits,
  )

  finish-full :
      (byte : ℕ) (rest : List ℕ) (value used : ℕ)
      → is_ascii_digit byte ≡ true
      → ltb used places ≡ false
      → finish (byte ∷ rest) value used ≡ finish rest value used
  unfolding fraction_loop
  finish-full byte rest value used h full = rw (h, full)

  gap_left :
      (value left used : ℕ)
      → left + used ≡ places
      → finish [] value used ≡ pad_loop modulus left value
  unfolding fraction_loop
  gap_left value left used e = let gap : places - used ≡ left = omega (arith, e) in rw gap

  finish-scaled :
      (bytes : List ℕ) (value left used : ℕ)
      → left + used ≡ places
      → Room modulus left value
      → All IsDigit bytes
      → finish bytes value used ≡ some (scaled left bytes value)
  finish-scaled [] value left used e room h =
      gap_left value left used e ∙ pad_loop-scaled modulus left value room
  finish-scaled (byte ∷ rest) value zero used e room h =
      finish-full byte rest value used (is_digit h.0) (ge→ltb used places (omega arith))
      ∙ finish-scaled rest value zero used e room h.1
  finish-scaled (byte ∷ rest) value (suc left) used e room h =
      let next = Room-suc modulus left value (byte - 48) (omega arith) room in
      finish-used byte rest value used (is_digit h.0) (omega arith)
        (Room-lt modulus left (value * 10 + (byte - 48)) next)
      ∙ finish-scaled rest (value * 10 + (byte - 48)) left (used + 1) (omega arith) next h.1

  finish-digits :
      (bytes : List ℕ) (value left used v : ℕ)
      → left + used ≡ places
      → Room modulus left value
      → finish bytes value used ≡ some v
      → All IsDigit bytes
  finish-digits [] value left used v e room h = tt
  finish-digits (byte ∷ rest) value zero used v e room h = elim (Bool-cases (is_ascii_digit byte)) [
    | inl digit ↦
        let step = finish-full byte rest value used digit (ge→ltb used places (omega arith)) in
        (IsDigit-is byte digit, finish-digits rest value zero used v e room (sym step ∙ h))
    | inr other ↦ absurd (none-some (sym (finish-none byte rest value used other) ∙ h))
  ]
  finish-digits (byte ∷ rest) value (suc left) used v e room h =
      elim (Bool-cases (is_ascii_digit byte)) [
        | inl digit ↦
            let is = IsDigit-is byte digit in
            let read = value * 10 + (byte - 48) in
            let next = Room-suc modulus left value (byte - 48) (omega arith) room in
            let step =
              finish-used byte rest value used digit (omega arith)
                (Room-lt modulus left read next) in
            (is, finish-digits rest read left (used + 1) v (omega arith) next (sym step ∙ h))
        | inr other ↦ absurd (none-some (sym (finish-none byte rest value used other) ∙ h))
      ]

-- The loops over a fraction accept exactly digits, and give the first `places` of them as a number,
-- with zeros for the digits that are not there, when the type has room for `places` digits.
pub scaled_fraction_iff :
    (modulus places : ℕ) (bytes : List ℕ) (v : ℕ)
    → 10 ^ places ≤ modulus
    → (scaled_fraction modulus places bytes ≡ some v)
      ↔ (All IsDigit bytes × (scaled places bytes 0 ≡ v))
unfolding scaled_fraction
scaled_fraction_iff modulus places bytes v room =
    let start : Room modulus places 0 = omega (arith, room) in
    (
      λ h.
          let digits = finish-digits modulus places bytes 0 places 0 v (omega arith) start h in
          (
            digits,
            some-eq (
                sym (finish-scaled modulus places bytes 0 places 0 (omega arith) start digits) ∙ h),
          ),
      λ h. finish-scaled modulus places bytes 0 places 0 (omega arith) start h.0 ∙ ap some h.1,
    )

-- A fraction of `places` places is less than one.
pub scaled_fraction-lt :
    (modulus places : ℕ) (bytes : List ℕ) (v : ℕ)
    → 10 ^ places ≤ modulus
    → scaled_fraction modulus places bytes ≡ some v
    → v < 10 ^ places
scaled_fraction-lt modulus places bytes v room h =
    let (digits, e) = (scaled_fraction_iff modulus places bytes v room).0 h in
    omega (arith, e, scaled-lt places bytes 0 (10 ^ places) digits (omega arith))
