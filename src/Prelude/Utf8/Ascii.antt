-- ===== src/Prelude/Utf8/Ascii.antt =====
-- Printable ASCII is UTF-8 of one byte for each character, with no white space and no controls.
use golfer.Prelude.Tests.{lt→ltb}
use golfer.Prelude.Lists.{All}
use Prim.Native.Nat.{ℕ, ◌≤◌, ◌<◌}
use mathlib.Core.Path.{◌≡◌, refl}
use mathlib.Core.Bool.{false}
use mathlib.Core.Option.{some}
use mathlib.Core.List.{List, [], ◌∷◌}
use native.Mathlib.Omega.{arith}
use golfer.Prelude.Utf8.{decode_utf8, from_utf8, chars, is_control, is_whitespace, any_char}

abbrev pub Graphic : ℕ → Type 0
Graphic c = (0x21 ≤ c) × (c < 0x7F)

decode_utf8-Graphic : (bytes : List ℕ) → All Graphic bytes → decode_utf8 bytes ≡ some bytes
decode_utf8-Graphic [] h = refl
decode_utf8-Graphic (b ∷ bytes) h =
    rw (lt→ltb b 0x80 (omega arith), decode_utf8-Graphic bytes h.1) refl

pub from_utf8-Graphic : (bytes : List ℕ) → All Graphic bytes → from_utf8 bytes ≡ some bytes
unfolding from_utf8
from_utf8-Graphic bytes h = rw (decode_utf8-Graphic bytes h) refl

pub chars-Graphic : (bytes : List ℕ) → All Graphic bytes → chars bytes ≡ bytes
unfolding chars
chars-Graphic bytes h = rw (decode_utf8-Graphic bytes h) refl

pub is_whitespace-Graphic : (c : ℕ) → Graphic c → is_whitespace c ≡ false
is_whitespace-Graphic c h = ground arith

is_control-Graphic : (c : ℕ) → Graphic c → is_control c ≡ false
is_control-Graphic c h = ground arith

pub any_char-Graphic : (cs : List ℕ) → All Graphic cs → any_char is_control cs ≡ false
any_char-Graphic [] h = refl
any_char-Graphic (c ∷ cs) h = rw (is_control-Graphic c h.0, any_char-Graphic cs h.1) refl
