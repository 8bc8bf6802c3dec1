-- ===== src/Splitter/Slices.antt =====
-- The slices of a file cover it from end to end.
use openfs.Common.{
  ℕ, zero, suc, ◌+◌, ◌-◌, ◌*◌, ◌/◌, ◌≤◌, ◌<◌, ◌^◌, ◌≡◌, List, [], ◌∷◌, Option, none, some, take,
  drop, ◌==◌, min, arith, subst, refl, ap, ◌∙◌, false, length,
}
use openfs.Types.{BlkLevel, l0, l1, l2, l3, l4, other_level, block_level_size, select_block_level}
use openfs.Crc.{compute_crc32}
use openfs.Splitter.{BlockSlice, block_count, slice_crc32, split_loop, split_with_level, split}

-- The checksum of `size` bytes of the file from `offset` on, and 0 for a file without its data.
abbrev pub checksum_of : Option (List ℕ) → ℕ → ℕ → ℕ
checksum_of none offset size = 0
checksum_of (some bytes) offset size = compute_crc32 (take size (drop offset bytes))

-- The slices run from `from` to `to` without gap or overlap; each but the last is a full block of
-- the level, and the last one is not empty and at most a block.
pub data Covers (level : BlkLevel) (bytes : Option (List ℕ))
    : ℕ → ℕ → List BlockSlice → Type 0 where
  last :
      (s : BlockSlice)
      → s.level ≡ level
      → 0 < s.data_size
      → s.data_size ≤ block_level_size level
      → s.crc32 ≡ checksum_of bytes s.file_offset s.data_size
      → Covers level bytes s.file_offset (s.file_offset + s.data_size) (s ∷ [])
  next :
      {to : ℕ} {slices : List BlockSlice} (s : BlockSlice)
      → s.level ≡ level
      → s.data_size ≡ block_level_size level
      → s.crc32 ≡ checksum_of bytes s.file_offset s.data_size
      → Covers level bytes (s.file_offset + s.data_size) to slices
      → Covers level bytes s.file_offset to (s ∷ slices)

slice_crc32_lem :
    (bytes : Option (List ℕ)) (offset size : ℕ)
    → slice_crc32 bytes offset size ≡ checksum_of bytes offset size
unfolding slice_crc32
slice_crc32_lem none offset size = refl
slice_crc32_lem (some bytes) offset size = refl

pub block_size_pos :
    (level : BlkLevel) → (2 ^ 16 ≤ block_level_size level) × (block_level_size level ≤ 2 ^ 28)
unfolding block_level_size
block_size_pos l0 = ground arith
block_size_pos l1 = ground arith
block_size_pos l2 = ground arith
block_size_pos l3 = ground arith
block_size_pos l4 = ground arith
block_size_pos (other_level byte) = ground arith

-- Enough rounds for `remaining` bytes: all but the last are full.
split_loop-Covers :
    (rounds : ℕ) (level : BlkLevel) (offset remaining : ℕ) (bytes : Option (List ℕ))
    → rounds * block_level_size level < remaining
    → remaining ≤ suc rounds * block_level_size level
    → Covers level bytes offset
        (offset + remaining)
        (split_loop (suc rounds) level offset remaining bytes)
unfolding split_loop
split_loop-Covers zero level offset remaining bytes above below =
    let one_block : remaining ≤ block_level_size level = omega (arith, below) in
    let whole : min remaining (block_level_size level) ≡ remaining = omega (arith, one_block) in
    let slice : BlockSlice = record {
      level = level;
      file_offset = offset;
      data_size = remaining;
      crc32 = slice_crc32 bytes offset remaining;
    } in
    rw (split_loop, whole)
      (last slice refl (omega (arith, above)) one_block (slice_crc32_lem bytes offset remaining))
split_loop-Covers (suc rounds) level offset remaining bytes above below =
    let blk = block_level_size level in
    let product : suc rounds * blk ≡ rounds * blk + blk = omega arith in
    let full : min remaining blk ≡ blk = omega (arith, above, product) in
    let slice : BlockSlice = record {
      level = level;
      file_offset = offset;
      data_size = blk;
      crc32 = slice_crc32 bytes offset blk;
    } in
    let rest =
      split_loop-Covers rounds level (offset + blk) (remaining - blk) bytes
        (omega (arith, above, product)) (omega (arith, below, product)) in
    let ends : offset + blk + (remaining - blk) ≡ offset + remaining =
      omega (arith, above, product) in
    rw (split_loop, full)
      (next slice refl refl (slice_crc32_lem bytes offset blk) (
        subst
          (λ (n : ℕ).
            Covers level bytes (offset + blk) n
              (split_loop (suc rounds) level (offset + blk) (remaining - blk) bytes))
          ends rest))

-- The number of blocks: enough for the file, and not one too many.
block_count_lem :
    (file_size : ℕ) (level : BlkLevel)
    → 0 < file_size
    → file_size ≤ 2 ^ 47
    → (n : ℕ) × (block_count file_size level ≡ suc n)
      × (n * block_level_size level < file_size)
      × (file_size ≤ suc n * block_level_size level)
unfolding block_count block_level_size
block_count_lem file_size l0 pos small =
    ((file_size - 1) / block_level_size l0, ground arith, omega arith, omega arith)
block_count_lem file_size l1 pos small =
    ((file_size - 1) / block_level_size l1, ground arith, omega arith, omega arith)
block_count_lem file_size l2 pos small =
    ((file_size - 1) / block_level_size l2, ground arith, omega arith, omega arith)
block_count_lem file_size l3 pos small =
    ((file_size - 1) / block_level_size l3, ground arith, omega arith, omega arith)
block_count_lem file_size l4 pos small =
    ((file_size - 1) / block_level_size l4, ground arith, omega arith, omega arith)
block_count_lem file_size (other_level byte) pos small =
    ((file_size - 1) / block_level_size (other_level byte), ground arith, omega arith, omega arith)

-- The slices of a file of 1 to 2^47 bytes, at any block level, follow each other without gap or
-- overlap from 0 to its size; each but the last is a full block, the last is not empty and at
-- most a block, and each carries the CRC-32 of the bytes of the file that it spans, or 0 when the
-- file comes without its data.
pub split_with_level-Covers :
    (file_size : ℕ) (level : BlkLevel) (bytes : Option (List ℕ))
    → 0 < file_size
    → file_size ≤ 2 ^ 47
    → Covers level bytes 0 file_size (split_with_level file_size level bytes)
unfolding split_with_level
split_with_level-Covers file_size level bytes pos small =
    let (n, count, above, below) = block_count_lem file_size level pos small in
    let not_empty : (file_size == 0) ≡ false = ground arith in
    let from_zero : 0 + file_size ≡ file_size = omega arith in
    rw (not_empty, split_with_level, count)
      (subst (λ (n' : ℕ). Covers level bytes 0 n' (split_loop (suc n) level 0 file_size bytes))
        from_zero (split_loop-Covers n level 0 file_size bytes above below))

fits_level :
    (file_size : ℕ)
    → file_size ≤ 32 * 1024 * 1024
    → file_size ≤ block_level_size (select_block_level file_size)
unfolding block_level_size select_block_level
fits_level file_size small = ground arith

first_only : (n blk file_size : ℕ) → n * blk < file_size → file_size ≤ blk → n ≡ 0
first_only zero blk file_size above below = refl
first_only (suc n) blk file_size above below = absurd (omega arith)

-- Split, at the level that it selects by the size, makes a single slice of a file of 1 byte to 32
-- MB.
pub split_single :
    (file_size : ℕ) (bytes : Option (List ℕ))
    → 0 < file_size
    → file_size ≤ 32 * 1024 * 1024
    → length (split file_size bytes) ≡ 1
unfolding split split_with_level split_loop
split_single file_size bytes pos small =
    let level = select_block_level file_size in
    let (n, count, above, below) = block_count_lem file_size level pos (omega arith) in
    let one : block_count file_size level ≡ 1 =
      count
      ∙ ap suc
          (first_only n (block_level_size level) file_size above (fits_level file_size small)) in
    let not_empty : (file_size == 0) ≡ false = ground arith in rw (not_empty, one, split_loop) refl
