-- ===== src/Crc/Injective.antt =====
-- A round of the CRC loses nothing, so a change of one byte changes the checksum.
use Prim.Native.Nat.{bit_and, bit_xor}
use golfer.Prelude.{
  ℕ, zero, suc, ◌+◌, ◌/◌, ◌%◌, ◌-◌, ◌^◌, ◌≤◌, ◌<◌, ◌≡◌, refl, ap, ◌≢◌, List, [], ◌∷◌, arith,
  u32_mod, All, inl, inr, ◌⊎◌, length, sym, get_or, set, All-set,
}
use golfer.Prelude.Bits.{bit_xor_step, bit_xor-lt, bit_xor_cancel, bit_and_mask}
use golfer.Prelude.Bytes.{IsByte}
use golfer.Crc.{polynomial, crc_bit, crc_bits, crc_loop, crc32_ieee}
use native.Mathlib.Nat.{pow-suc}

abbrev IsWord : ℕ → Type 0
IsWord n = n < u32_mod

bit_xor_top : (k x y : ℕ) → x < 2 ^ k → y < 2 ^ k → 2 ^ k ≤ bit_xor x (2 ^ k + y)
bit_xor_top zero zero zero p q = omega arith
bit_xor_top zero (suc x) y p q = absurd (omega arith)
bit_xor_top zero zero (suc y) p q = absurd (omega arith)
bit_xor_top (suc k) x y p q =
    let two_pow = pow-suc 2 k in
    let halves : (2 ^ suc k + y) / 2 ≡ 2 ^ k + y / 2 = omega arith in
    let ih = bit_xor_top k (x / 2) (y / 2) (omega arith) (omega arith) in
    let step = bit_xor_step x (2 ^ suc k + y) in
    let inner : 2 ^ k ≤ bit_xor (x / 2) ((2 ^ suc k + y) / 2) = rw halves ih in omega arith

-- The two cases of a round.
bit_and_one : (x : ℕ) → bit_and x 1 ≡ x % 2
bit_and_one x = bit_and_mask 1 x

crc_bit_even : (x : ℕ) → x % 2 ≡ 0 → crc_bit x ≡ bit_xor (x / 2) 0
unfolding crc_bit
crc_bit_even x h = rw (bit_and_one x, h)

crc_bit_odd : (x : ℕ) → x % 2 ≡ 1 → crc_bit x ≡ bit_xor (x / 2) polynomial
unfolding crc_bit
crc_bit_odd x h = rw (bit_and_one x, h)

parity : (x : ℕ) → (x % 2 ≡ 0) ⊎ (x % 2 ≡ 1)
parity x = omega arith

crc_bit-IsWord : (x : ℕ) → IsWord x → IsWord (crc_bit x)
crc_bit-IsWord x h = elim (parity x) [
  | inl e ↦ rw (crc_bit_even x e) (bit_xor-lt 32 (x / 2) 0 (omega arith) (omega arith))
  | inr e ↦ rw (crc_bit_odd x e) (bit_xor-lt 32 (x / 2) polynomial (omega arith) (omega arith))
]

-- Words of different parity differ after the round in the highest bit.
crc_bit_parity : (x y : ℕ) → IsWord x → IsWord y → x % 2 ≡ 0 → y % 2 ≡ 1 → crc_bit x ≢ crc_bit y
crc_bit_parity x y hx hy ex ey e =
    let low = bit_xor-lt 31 (x / 2) 0 (omega arith) (omega arith) in
    let high = bit_xor_top 31 (y / 2) (polynomial - 2 ^ 31) (omega arith) (omega arith) in
    absurd (omega (arith, crc_bit_even x ex, crc_bit_odd y ey))

xor_injective : (x y w : ℕ) → IsWord x → IsWord y → IsWord w → bit_xor x w ≡ bit_xor y w → x ≡ y
xor_injective x y w hx hy hw e =
    let undo_x = bit_xor_cancel 32 x w hx hw in
    let undo_y = bit_xor_cancel 32 y w hy hw in omega (arith, ap (λ (t : ℕ). bit_xor t w) e)

crc_bit_injective : (x y : ℕ) → IsWord x → IsWord y → crc_bit x ≡ crc_bit y → x ≡ y
crc_bit_injective x y hx hy e = elim (parity x) [
  | inl ex ↦ elim (parity y) [
    | inl ey ↦
        let same : bit_xor (x / 2) 0 ≡ bit_xor (y / 2) 0 =
          omega (arith, crc_bit_even x ex, crc_bit_even y ey) in
        let half = xor_injective (x / 2) (y / 2) 0 (omega arith) (omega arith) (omega arith) same in
        omega arith
    | inr ey ↦ absurd (crc_bit_parity x y hx hy ex ey e)
  ]
  | inr ex ↦ elim (parity y) [
    | inl ey ↦ absurd (crc_bit_parity y x hy hx ey ex (sym e))
    | inr ey ↦
        let same : bit_xor (x / 2) polynomial ≡ bit_xor (y / 2) polynomial =
          omega (arith, crc_bit_odd x ex, crc_bit_odd y ey) in
        let half =
          xor_injective (x / 2) (y / 2) polynomial (omega arith) (omega arith) (omega arith) same in
        omega arith
  ]
]

crc_bits-IsWord : (n x : ℕ) → IsWord x → IsWord (crc_bits n x)
unfolding crc_bits
crc_bits-IsWord zero x h = h
crc_bits-IsWord (suc n) x h = crc_bits-IsWord n (crc_bit x) (crc_bit-IsWord x h)

crc_bits_injective : (n x y : ℕ) → IsWord x → IsWord y → crc_bits n x ≡ crc_bits n y → x ≡ y
unfolding crc_bits
crc_bits_injective zero x y hx hy e = e
crc_bits_injective (suc n) x y hx hy e =
    crc_bit_injective x y hx hy
      (crc_bits_injective n (crc_bit x) (crc_bit y) (crc_bit-IsWord x hx) (crc_bit-IsWord y hy) e)

-- The state after one byte of the data.
abbrev crc_byte : ℕ → ℕ → ℕ
crc_byte crc byte = crc_bits 8 (bit_xor crc byte)

mixed-IsWord : (x b : ℕ) → IsWord x → IsByte b → IsWord (bit_xor x b)
mixed-IsWord x b hx hb = bit_xor-lt 32 x b hx (omega arith)

crc_byte-IsWord : (x b : ℕ) → IsWord x → IsByte b → IsWord (crc_byte x b)
crc_byte-IsWord x b hx hb = crc_bits-IsWord 8 (bit_xor x b) (mixed-IsWord x b hx hb)

crc_loop-IsWord : (bytes : List ℕ) (x : ℕ) → All IsByte bytes → IsWord x → IsWord (crc_loop bytes x)
unfolding crc_loop
crc_loop-IsWord [] x h hx = hx
crc_loop-IsWord (b ∷ bs) x h hx = crc_loop-IsWord bs (crc_byte x b) h.1 (crc_byte-IsWord x b hx h.0)

crc_loop_injective :
    (bytes : List ℕ) (x y : ℕ)
    → All IsByte bytes
    → IsWord x
    → IsWord y
    → crc_loop bytes x ≡ crc_loop bytes y
    → x ≡ y
unfolding crc_loop
crc_loop_injective [] x y h hx hy e = e
crc_loop_injective (b ∷ bs) x y h hx hy e = xor_injective x y b hx hy (omega arith) (
    crc_bits_injective 8 (bit_xor x b) (bit_xor y b) (mixed-IsWord x b hx h.0)
      (mixed-IsWord y b hy h.0)
      (crc_loop_injective bs (crc_byte x b) (crc_byte y b) h.1 (crc_byte-IsWord x b hx h.0)
        (crc_byte-IsWord y b hy h.0) e))

bit_xor_comm : (k x y : ℕ) → x ≤ k → y ≤ k → bit_xor x y ≡ bit_xor y x
bit_xor_comm zero zero zero p q = refl
bit_xor_comm zero (suc x) y p q = absurd (omega arith)
bit_xor_comm zero zero (suc y) p q = absurd (omega arith)
bit_xor_comm (suc k) x y p q = omega (
  arith,
  bit_xor_step x y,
  bit_xor_step y x,
  bit_xor_comm k (x / 2) (y / 2) (omega arith) (omega arith),
)

byte_injective : (x b c : ℕ) → IsWord x → IsByte b → IsByte c → crc_byte x b ≡ crc_byte x c → b ≡ c
byte_injective x b c hx hb hc e =
    let same =
      crc_bits_injective 8 (bit_xor x b) (bit_xor x c) (mixed-IsWord x b hx hb)
        (mixed-IsWord x c hx hc) e in
    xor_injective b c x (omega arith) (omega arith) hx (
      omega (
        arith,
        bit_xor_comm (x + b) x b (omega arith) (omega arith),
        bit_xor_comm (x + c) x c (omega arith) (omega arith),
      ))

crc_loop_changed :
    (x c i : ℕ) (bytes : List ℕ)
    → IsWord x
    → IsByte c
    → All IsByte bytes
    → i < length bytes
    → get_or bytes i 0 ≢ c
    → crc_loop (set bytes i c) x ≢ crc_loop bytes x
unfolding crc_loop
crc_loop_changed x c i [] hx hc h lt ne e = absurd (omega arith)
crc_loop_changed x c zero (y ∷ bytes) hx hc h lt ne e = ne (
    sym (
      byte_injective x c y hx hc h.0 (
        crc_loop_injective bytes (crc_byte x c) (crc_byte x y) h.1 (crc_byte-IsWord x c hx hc)
          (crc_byte-IsWord x y hx h.0) e)))
crc_loop_changed x c (suc i) (y ∷ bytes) hx hc h lt ne e =
    crc_loop_changed (crc_byte x y) c i bytes (crc_byte-IsWord x y hx h.0) hc h.1 (omega arith) ne e

-- The checksum of bytes is a 32-bit word.
pub crc32_ieee-lt : (bytes : List ℕ) → crc32_ieee bytes < u32_mod
unfolding crc32_ieee
crc32_ieee-lt bytes = omega arith

-- Changing any one byte, at any place, changes the checksum.
pub crc32_ieee_changed :
    (bytes : List ℕ) (i c : ℕ)
    → All IsByte bytes
    → IsByte c
    → i < length bytes
    → get_or bytes i 0 ≢ c
    → crc32_ieee (set bytes i c) ≢ crc32_ieee bytes
unfolding crc32_ieee
crc32_ieee_changed bytes i c h hc lt ne e =
    let ones : ℕ = 0xFFFF_FFFF in
    let before = crc_loop-IsWord bytes ones h (omega arith) in
    let after =
      crc_loop-IsWord (set bytes i c) ones (All-set IsByte bytes i c h hc) (omega arith) in
    crc_loop_changed ones c i bytes (omega arith) hc h lt ne (omega arith)
