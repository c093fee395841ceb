-- ===== src/Prelude/Utf8.antt =====
-- The texts of Rust's standard library: UTF-8, the characters of a `str`, and the two classes of
-- characters that the code asks for.
pub mod Ascii
use golfer.Prelude.Tests.{ltb, leb, if◌then◌else◌, ◌==◌}
use golfer.Prelude.Options.{◌>>=◌, guard, ◌>>◌}
use Prim.Native.Nat.{ℕ, suc, ◌+◌, ◌-◌, ◌*◌}
use mathlib.Core.Bool.{Bool, true, false, ◌&&◌, ◌||◌}
use mathlib.Core.Option.{Option, none, some}
use mathlib.Core.List.{List, [], ◌∷◌, ◌++◌}

-- The decoder inside a character: the bytes still wanted, the bits so far, and the range of the
-- next byte, which rules out overlong forms and surrogates.
pub record Partial : Type 0 where
  pub wanted : ℕ
  pub bits : ℕ
  pub low : ℕ
  pub high : ℕ

abbrev between : ℕ → ℕ → ℕ → Bool
between low high b = leb low b && leb b high

abbrev boundary : Partial
boundary = record { wanted = 0; bits = 0; low = 0; high = 0 }

abbrev expecting : ℕ → ℕ → ℕ → ℕ → Option (Partial × List ℕ)
expecting wanted bits low high =
    some (record { wanted = wanted; bits = bits; low = low; high = high }, [])

-- The first byte of a character.
abbrev lead : ℕ → Option (Partial × List ℕ)
lead b =
    if ltb b 0x80
    then some (boundary, b ∷ [])
    else if between 0xC2 0xDF b
    then expecting 1 (b - 0xC0) 0x80 0xBF
    else if b == 0xE0
    then expecting 2 0 0xA0 0xBF
    else if b == 0xED
    then expecting 2 0xD 0x80 0x9F
    else if between 0xE1 0xEF b
    then expecting 2 (b - 0xE0) 0x80 0xBF
    else if b == 0xF0
    then expecting 3 0 0x90 0xBF
    else if between 0xF1 0xF3 b
    then expecting 3 (b - 0xF0) 0x80 0xBF
    else if b == 0xF4
    then expecting 3 4 0x80 0x8F
    else none

-- A further byte of a character, where `wanted` more are to follow it.
abbrev continuation : ℕ → Partial → ℕ → Option (Partial × List ℕ)
continuation wanted s b =
    let bits = s.bits * 64 + (b - 0x80) in
    if between s.low s.high b
    then (if wanted == 0 then some (boundary, bits ∷ []) else expecting wanted bits 0x80 0xBF)
    else none

abbrev step : Partial → ℕ → Option (Partial × List ℕ)
step s b = if s.wanted == 0 then lead b else continuation (s.wanted - 1) s b

abbrev decode_from : Partial → List ℕ → Option (List ℕ)
decode_from s [] = do guard (s.wanted == 0); some []
decode_from s (b ∷ bytes) =
    step s b >>= λ next. decode_from next.0 bytes >>= λ chars. some (next.1 ++ chars)

-- The characters of a text, if its bytes are UTF-8.
abbrev pub decode_utf8 : List ℕ → Option (List ℕ)
decode_utf8 bytes = decode_from boundary bytes

abbrev pub text_or_none : List ℕ → Option (List ℕ) → Option (List ℕ)
text_or_none bytes none = none
text_or_none bytes (some chars) = some bytes

-- `str::from_utf8(bytes).ok()`
unfoldable pub from_utf8 : List ℕ → Option (List ℕ)
from_utf8 bytes = text_or_none bytes (decode_utf8 bytes)

abbrev or_empty : Option (List ℕ) → List ℕ
or_empty none = []
or_empty (some chars) = chars

-- `text.chars()`, of a text whose bytes are UTF-8.
unfoldable pub chars : List ℕ → List ℕ
chars text = or_empty (decode_utf8 text)

-- `char::is_control`
abbrev pub is_control : ℕ → Bool
is_control c = ltb c 0x20 || between 0x7F 0x9F c

-- `char::is_whitespace`
abbrev pub is_whitespace : ℕ → Bool
is_whitespace c =
    between 0x09 0x0D c
    || c == 0x20
    || c == 0x85
    || c == 0xA0
    || c == 0x1680
    || between 0x2000 0x200A c
    || c == 0x2028
    || c == 0x2029
    || c == 0x202F
    || c == 0x205F
    || c == 0x3000

abbrev pub all_chars : (ℕ → Bool) → List ℕ → Bool
all_chars test [] = true
all_chars test (c ∷ cs) = test c && all_chars test cs

abbrev pub any_char : (ℕ → Bool) → List ℕ → Bool
any_char test [] = false
any_char test (c ∷ cs) = test c || any_char test cs
