-- ===== src/Crc/Tests.antt =====
-- Instances of the theorems about the checksum; the check value of CRC-32 is that of "123456789".
use openfs.Common.{ℕ, List, [], ◌∷◌, ◌≡◌, refl, bit_xor}
use openfs.Crc.{crc32_impl, compute_crc32}
use openfs.Crc.Laws.{compute_crc32-reference, crc_reference}

abbrev nine : List ℕ
nine = b'1' ∷ b'2' ∷ b'3' ∷ b'4' ∷ b'5' ∷ b'6' ∷ b'7' ∷ b'8' ∷ b'9' ∷ []

check_value : compute_crc32 nine ≡ 0xCBF43926
unfolding compute_crc32 crc32_impl
check_value = refl

compute_crc32-reference_example :
    compute_crc32 nine ≡ bit_xor (crc_reference 0xFFFFFFFF nine) 0xFFFFFFFF
compute_crc32-reference_example = compute_crc32-reference nine
