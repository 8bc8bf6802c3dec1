-- ===== src/Splitter.antt =====
-- src/client/block_splitter.cpp: how a client cuts a file into blocks. The data of the file is the
-- list of its bytes, or none where the caller passes a null pointer.
pub mod Slices
mod Tests
use openfs.Common.{
  ℕ, zero, suc, ◌+◌, ◌-◌, ◌/◌, ◌%◌, List, [], ◌∷◌, Option, none, some, ◌==◌, if◌then◌else◌, min,
  take, drop, u32_mod, u64_mod,
}
use openfs.Types.{BlkLevel, block_level_size, select_block_level}
use openfs.Crc.{compute_crc32}

pub record BlockSlice : Type 0 where
  pub level : BlkLevel
  pub file_offset : ℕ
  pub data_size : ℕ
  pub crc32 : ℕ

-- `BlockCount`: the sum wraps at 64 bits and the quotient is cut to 32.
unfoldable pub block_count : ℕ → BlkLevel → ℕ
block_count file_size level =
    let blk_size = block_level_size level in
    if file_size == 0 then 0 else (file_size + blk_size - 1) % u64_mod / blk_size % u32_mod

-- The checksum of a slice, 0 when there is no data.
unfoldable pub slice_crc32 : Option (List ℕ) → ℕ → ℕ → ℕ
slice_crc32 none offset size = 0
slice_crc32 (some bytes) offset size = compute_crc32 (take size (drop offset bytes))

-- The loop of `SplitWithLevel`, for the rounds left.
unfoldable pub split_loop : ℕ → BlkLevel → ℕ → ℕ → Option (List ℕ) → List BlockSlice
split_loop zero level offset remaining bytes = []
split_loop (suc rounds) level offset remaining bytes =
    let size = min remaining (block_level_size level) in
    let slice : BlockSlice = record {
      level = level;
      file_offset = offset;
      data_size = size;
      crc32 = slice_crc32 bytes offset size;
    } in
    slice ∷ split_loop rounds level (offset + size) (remaining - size) bytes

unfoldable pub split_with_level : ℕ → BlkLevel → Option (List ℕ) → List BlockSlice
split_with_level file_size level bytes =
    let slices = split_loop (block_count file_size level) level 0 file_size bytes in
    if file_size == 0 then [] else slices

unfoldable pub split : ℕ → Option (List ℕ) → List BlockSlice
split file_size bytes = split_with_level file_size (select_block_level file_size) bytes
