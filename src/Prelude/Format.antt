-- ===== src/Prelude/Format.antt =====
-- The forms of `core::fmt` that the firmware writes numbers in, as ASCII codes.
use golfer.Prelude.Tests.{ltb, if◌then◌else◌}
use golfer.Prelude.Int.{ℤ, pos, negsuc}
use Prim.Native.Nat.{ℕ, zero, suc, ◌+◌, ◌/◌, ◌%◌, ◌^◌}
use mathlib.Core.List.{List, [], ◌∷◌, ◌++◌}

-- The digits of a number with no leading zero: the last of them, if it has more than `fuel + 1`.
unfoldable pub digits_within : ℕ → ℕ → List ℕ
digits_within zero n = (0x30 + n % 10) ∷ []
digits_within (suc fuel) n =
    let earlier = digits_within fuel (n / 10) in
    if ltb n 10 then (0x30 + n) ∷ [] else earlier ++ ((0x30 + n % 10) ∷ [])

-- `{}` of an unsigned number; a `u64` has at most twenty digits.
abbrev pub decimal_text : ℕ → List ℕ
decimal_text n = digits_within 19 n

-- `{}` of a signed number.
abbrev pub signed_text : ℤ → List ℕ
signed_text (pos n) = decimal_text n
signed_text (negsuc n) = b'-' ∷ decimal_text (suc n)

-- `{:0width}`, for a number of at most `width` digits.
abbrev pub padded : ℕ → ℕ → List ℕ
padded zero n = []
padded (suc width) n = padded width (n / 10) ++ ((0x30 + n % 10) ∷ [])

abbrev pub hex_digit : ℕ → ℕ
hex_digit d = if ltb d 10 then 0x30 + d else 0x37 + d

-- `{:0widthX}`, for a number of at most `width` digits.
abbrev pub hex_upper : ℕ → ℕ → List ℕ
hex_upper zero n = []
hex_upper (suc width) n = hex_digit (n / 16 ^ width % 16) ∷ hex_upper width n
