-- ===== src/Crc/Tests.antt =====
-- The check value of CRC-32/IEEE.
use golfer.Prelude.{◌≡◌, refl, [], ◌∷◌}
use golfer.Crc.{crc32_ieee}

check_value :
    crc32_ieee (b'1' ∷ b'2' ∷ b'3' ∷ b'4' ∷ b'5' ∷ b'6' ∷ b'7' ∷ b'8' ∷ b'9' ∷ []) ≡ 0xCBF4_3926
unfolding crc32_ieee
check_value = refl
