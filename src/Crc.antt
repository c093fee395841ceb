-- ===== src/Crc.antt =====
-- `crc32_ieee` of firmware/golfer/src/packet.rs; `crc32` of firmware/golfer/src/system.rs has the
-- same body. A `u32` is a number below 2 ^ 32 and a byte slice a list of numbers.
pub mod Injective
mod Tests
use Prim.Native.Nat.{bit_and, bit_xor}
use golfer.Prelude.{ℕ, zero, suc, ◌-◌, ◌/◌, ◌%◌, List, [], ◌∷◌, u32_mod}

abbrev pub polynomial : ℕ
polynomial = 0xEDB8_8320

-- One round of the inner loop. `0u32.wrapping_sub(crc & 1)` is 0 or all ones.
crc_bit : ℕ → ℕ
crc_bit crc =
    let mask = (u32_mod - bit_and crc 1) % u32_mod in bit_xor (crc / 2) (bit_and polynomial mask)

-- `for _ in 0..rounds`
crc_bits : ℕ → ℕ → ℕ
unfolding crc_bit
crc_bits zero crc = crc
crc_bits (suc rounds) crc = crc_bits rounds (crc_bit crc)

-- The outer loop.
crc_loop : List ℕ → ℕ → ℕ
unfolding crc_bits
crc_loop [] crc = crc
crc_loop (byte ∷ data_left) crc = crc_loop data_left (crc_bits 8 (bit_xor crc byte))

-- `!crc` is the distance from `u32::MAX`.
unfoldable pub crc32_ieee : List ℕ → ℕ
unfolding crc_loop
crc32_ieee bytes = 0xFFFF_FFFF - crc_loop bytes 0xFFFF_FFFF

-- `crc32` of system.rs.
unfoldable pub crc32 : List ℕ → ℕ
unfolding crc_loop
crc32 bytes = 0xFFFF_FFFF - crc_loop bytes 0xFFFF_FFFF
