-- ===== src/Crc.antt =====
-- src/common/crc32.cpp: the checksum of blocks and of log entries. A buffer and its length are the
-- list of its bytes.
mod Table
pub mod Laws
mod Tests
use openfs.Common.{ℕ, List, [], ◌∷◌, ◌%◌, ◌/◌, ◌^◌, bit_and, bit_xor, get_or}
use openfs.Crc.Table.{crc32_table}

-- `crc32_impl`: the loop over the bytes; `index` is a `uint8_t`.
unfoldable pub crc32_impl : ℕ → List ℕ → ℕ
crc32_impl crc [] = crc
crc32_impl crc (byte ∷ bytes) =
    let index = bit_and (bit_xor crc byte) 0xFF % 2 ^ 8 in
    crc32_impl (bit_xor (crc / 2 ^ 8) (get_or crc32_table index 0)) bytes

unfoldable pub compute_crc32 : List ℕ → ℕ
unfolding crc32_impl
compute_crc32 buffer = bit_xor (crc32_impl 0xFFFFFFFF buffer) 0xFFFFFFFF

unfoldable pub update_crc32 : ℕ → List ℕ → ℕ
unfolding crc32_impl
update_crc32 prev_crc buffer = bit_xor (crc32_impl (bit_xor prev_crc 0xFFFFFFFF) buffer) 0xFFFFFFFF
