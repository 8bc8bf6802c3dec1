-- ===== src/Bitmap.antt =====
-- src/data/block_bitmap.h and block_bitmap.cpp: the allocation bitmap of a disk.
-- A vector read out of range gives 0 and a write out of range changes nothing; both would be
-- undefined behaviour in the source, and `IsValid` excludes them.
pub mod Bits
pub mod Search
pub mod Ranges
pub mod Counts
mod Tests
use openfs.Common.{
  ℕ, zero, suc, ◌+◌, ◌-◌, ◌/◌, ◌%◌, ◌^◌, List, [], Bool, true, false, bit_and, bit_or, ltb, leb,
  ◌==◌, if◌then◌else◌, u64_mod, length, get_or, set, replicate, ◌++◌,
}

pub record BlockBitmap : Type 0 where
  pub num_blocks : ℕ
  pub bitmap : List ℕ

-- `kInvalidBlockIndex`
abbrev pub invalid_block_index : ℕ
invalid_block_index = 2 ^ 64 - 1

-- `BlockBitmap(num_blocks)`
unfoldable pub init : ℕ → BlockBitmap
init num_blocks = record {
  num_blocks = num_blocks;
  bitmap = replicate (((num_blocks + 7) % u64_mod) / 8) 0;
}

unfoldable pub get_bit : List ℕ → ℕ → Bool
get_bit bm index = (get_or bm (index / 8) 0 / 2 ^ (index % 8)) % 2 == 1

unfoldable pub set_bit : List ℕ → ℕ → List ℕ
set_bit bm index = set bm (index / 8) (bit_or (get_or bm (index / 8) 0) (2 ^ (index % 8)))

-- `static_cast<uint8_t>(~(1 << k))` is 255 - 2^k for k < 8.
unfoldable pub clear_bit : List ℕ → ℕ → List ℕ
clear_bit bm index = set bm (index / 8) (bit_and (get_or bm (index / 8) 0) (255 - 2 ^ (index % 8)))

-- The loop of `FindConsecutiveFree`: `rounds` blocks from `i` on are left.
unfoldable pub scan : List ℕ → ℕ → ℕ → ℕ → ℕ → ℕ → ℕ
scan bm count zero i consecutive start = invalid_block_index
scan bm count (suc rounds) i consecutive start = elim (get_bit bm i) [
  | false ↦
      let start' = if consecutive == 0 then i else start in
      let rest = scan bm count rounds (i + 1) (consecutive + 1) start' in
      if leb count (consecutive + 1) then start' else rest
  | true ↦ scan bm count rounds (i + 1) 0 invalid_block_index
]

unfoldable pub find_consecutive_free : BlockBitmap → ℕ → ℕ
unfolding scan
find_consecutive_free b count = scan b.bitmap count b.num_blocks 0 0 invalid_block_index

-- The loop of `Allocate`: sets the bits `start + i` for the rounds left.
unfoldable pub set_range : List ℕ → ℕ → ℕ → ℕ → List ℕ
set_range bm start i zero = bm
set_range bm start i (suc rounds) =
    set_range (set_bit bm ((start + i) % u64_mod)) start (i + 1) rounds

unfoldable pub allocate : BlockBitmap → ℕ → ℕ × BlockBitmap
unfolding find_consecutive_free set_range
allocate b count =
    let start = find_consecutive_free b count in
    if count == 0
    then (invalid_block_index, b)
    else if start == invalid_block_index
    then (invalid_block_index, b)
    else (start, record b { bitmap = set_range b.bitmap start 0 count })

-- The loop of `Free`. The sum is a `uint64_t`, which wraps.
unfoldable pub clear_range : ℕ → List ℕ → ℕ → ℕ → ℕ → List ℕ
clear_range num_blocks bm start i zero = bm
clear_range num_blocks bm start i (suc rounds) =
    let block = (start + i) % u64_mod in
    clear_range num_blocks (if ltb block num_blocks then clear_bit bm block else bm) start (i + 1)
      rounds

unfoldable pub free : BlockBitmap → ℕ → ℕ → BlockBitmap
unfolding clear_range
free b start_block count = record b {
  bitmap = clear_range b.num_blocks b.bitmap start_block 0 count;
}

unfoldable pub is_allocated : BlockBitmap → ℕ → Bool
is_allocated b block_index =
    if leb b.num_blocks block_index then false else get_bit b.bitmap block_index

unfoldable pub set_allocated : BlockBitmap → ℕ → BlockBitmap
set_allocated b block_index =
    if ltb block_index b.num_blocks then record b { bitmap = set_bit b.bitmap block_index } else b

unfoldable pub set_free : BlockBitmap → ℕ → BlockBitmap
set_free b block_index =
    if ltb block_index b.num_blocks then record b { bitmap = clear_bit b.bitmap block_index } else b

-- The loop of `FreeBlocks`, from the last block to the first.
unfoldable pub count_allocated : List ℕ → ℕ → ℕ
count_allocated bm zero = 0
count_allocated bm (suc i) = if get_bit bm i then count_allocated bm i + 1 else count_allocated bm i

unfoldable pub free_blocks : BlockBitmap → ℕ
unfolding count_allocated
free_blocks b = b.num_blocks - count_allocated b.bitmap b.num_blocks

unfoldable pub allocated_blocks : BlockBitmap → ℕ
unfolding free_blocks
allocated_blocks b = b.num_blocks - free_blocks b

-- `Load`: `resize` appends zero bytes.
unfoldable pub load : List ℕ → ℕ → BlockBitmap
load bytes num_blocks =
    let needed = ((num_blocks + 7) % u64_mod) / 8 in
    record {
      num_blocks = num_blocks;
      bitmap =
          if ltb (length bytes) needed then bytes ++ replicate (needed - length bytes) 0 else bytes;
    }

unfoldable pub validate : BlockBitmap → Bool
validate b = leb (((b.num_blocks + 7) % u64_mod) / 8) (length b.bitmap)
