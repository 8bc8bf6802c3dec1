-- ===== src/Crc/Laws.antt =====
-- The checksum of a buffer read in pieces, and the table against the polynomial.
use openfs.Common.{
  ℕ, zero, suc, List, [], ◌∷◌, ◌++◌, ◌≡◌, ◌%◌, ◌/◌, ◌^◌, refl, true, bit_and, bit_xor, get_or,
  arith, if◌then◌else◌, ◌==◌, ==_iff, all_below, all_below_sound, ltb, ltb→lt, ◌<◌,
}
use openfs.Common.Bits.{bit_xor-cancel, bit_and_ones, bit_xor_lt}
use openfs.Crc.Table.{crc32_table}
use openfs.Crc.{crc32_impl, compute_crc32, update_crc32}

crc32_impl-append :
    (a b : List ℕ) (crc : ℕ) → crc32_impl crc (a ++ b) ≡ crc32_impl (crc32_impl crc a) b
unfolding crc32_impl
crc32_impl-append [] b crc = refl
crc32_impl-append (x ∷ a) b crc = crc32_impl-append a b _

-- UpdateCRC32 continues a checksum: that of one buffer, updated with a second one, is the
-- checksum of both in a row.
pub update_crc32-compute_crc32 :
    (a b : List ℕ) → update_crc32 (compute_crc32 a) b ≡ compute_crc32 (a ++ b)
unfolding compute_crc32 update_crc32
update_crc32-compute_crc32 a b = rw (bit_xor-cancel, crc32_impl-append)

-- One binary digit of the division by the reflected polynomial.
unfoldable divide_digit : ℕ → ℕ
divide_digit c = if c % 2 == 1 then bit_xor (c / 2) 0xEDB88320 else c / 2

unfoldable divide : ℕ → ℕ → ℕ
unfolding divide_digit
divide zero c = c
divide (suc n) c = divide n (divide_digit c)

table_agrees : all_below 256 (λ i. get_or crc32_table i 0 == divide 8 i) ≡ true
unfolding all_below divide divide_digit
table_agrees = refl

-- The checksum by definition: eight digits of division for each byte, without a table.
unfoldable pub crc_reference : ℕ → List ℕ → ℕ
unfolding divide
crc_reference crc [] = crc
crc_reference crc (byte ∷ bytes) =
    crc_reference (bit_xor (crc / 2 ^ 8) (divide 8 (bit_xor crc byte % 2 ^ 8))) bytes

crc32_impl-reference : (bytes : List ℕ) (crc : ℕ) → crc32_impl crc bytes ≡ crc_reference crc bytes
unfolding crc32_impl crc_reference
crc32_impl-reference [] crc = refl
crc32_impl-reference (byte ∷ bytes) crc =
    let x = bit_xor crc byte in
    let low : bit_and x 0xFF % 2 ^ 8 ≡ x % 2 ^ 8 = omega (arith, bit_and_ones 8 x) in
    let entry : get_or crc32_table (x % 2 ^ 8) 0 ≡ divide 8 (x % 2 ^ 8) = (==_iff _ _).0 (
      all_below_sound 256 (λ i. get_or crc32_table i 0 == divide 8 i) (x % 2 ^ 8) table_agrees
        (omega arith)) in
    rw (low, entry) (crc32_impl-reference bytes _)

-- ComputeCRC32, which uses a table of 256 entries, is for any bytes the digit by digit division
-- by the polynomial 0xEDB88320, begun with all ones and inverted at the end.
pub compute_crc32-reference :
    (buffer : List ℕ) → compute_crc32 buffer ≡ bit_xor (crc_reference 0xFFFFFFFF buffer) 0xFFFFFFFF
unfolding compute_crc32
compute_crc32-reference buffer = rw (crc32_impl-reference)

table_small : all_below 256 (λ i. ltb (get_or crc32_table i 0) (2 ^ 32)) ≡ true
unfolding all_below
table_small = refl

crc32_impl_lt : (bytes : List ℕ) (crc : ℕ) → crc < 2 ^ 32 → crc32_impl crc bytes < 2 ^ 32
unfolding crc32_impl
crc32_impl_lt [] crc small = small
crc32_impl_lt (byte ∷ bytes) crc small =
    let index = bit_and (bit_xor crc byte) 0xFF % 2 ^ 8 in
    let entry : get_or crc32_table index 0 < 2 ^ 32 = ltb→lt _ _ (
      all_below_sound 256 (λ i. ltb (get_or crc32_table i 0) (2 ^ 32)) index table_small
        (omega arith)) in
    crc32_impl_lt bytes (bit_xor (crc / 2 ^ 8) (get_or crc32_table index 0))
      (bit_xor_lt 32 (crc / 2 ^ 8) (get_or crc32_table index 0) (omega (arith, small)) entry)

-- A checksum has 32 bits.
pub compute_crc32_lt : (buffer : List ℕ) → compute_crc32 buffer < 2 ^ 32
unfolding compute_crc32
compute_crc32_lt buffer =
    bit_xor_lt 32 (crc32_impl 0xFFFFFFFF buffer) 0xFFFFFFFF
      (crc32_impl_lt buffer 0xFFFFFFFF (omega arith)) (omega arith)
