-- ===== src/Disk/Store.antt =====
-- The abstract view of a disk: the blocks that it stores, by their offset.
use openfs.Common.{
  ℕ, ◌+◌, ◌*◌, ◌%◌, ◌≤◌, ◌<◌, ◌≡◌, ◌≢◌, ◌⊎◌, inr, List, true, length, take, u32_mod, u64_mod,
  write_over, arith, ap, sym, subst, ◌∙◌, [], append-nil, take-length_append, some,
}
use openfs.Common.Map
use openfs.Common.Map.{Map}
use openfs.Types.{Result}
use openfs.Bitmap.{is_allocated}
use openfs.Bitmap.Ranges
use openfs.Bitmap.Ranges.{within}
use openfs.Device.{Device, write_device}
use openfs.Device.Laws.{Holds, write_device-ok, write_over-Holds}
use openfs.Disk.{DiskManager, calc_physical_blocks, save_bitmap, is_normal}
use openfs.Disk.Layout.{Block, Fits, size_of, block_bytes}

-- A running disk, whose areas follow each other within what the device takes.
pub record IsValid (d : DiskManager) : Type 0 where
  pub bitmap_valid : Ranges.IsValid d.bitmap
  pub bitmap_area : d.superblock.bitmap_offset + length d.bitmap.bitmap ≤ d.superblock.data_offset
  pub bitmap_small : length d.bitmap.bitmap < u32_mod
  pub room : d.superblock.data_offset + d.bitmap.num_blocks * 4096 ≤ d.io.capacity
  pub no_wrap : d.io.capacity < u64_mod
  pub opened : d.io.is_open ≡ true
  pub good : d.io.is_good ≡ true
  pub running : is_normal d.state ≡ true

abbrev pub blocks_of : Block → ℕ
blocks_of b = calc_physical_blocks (size_of b)

-- The block stands at the offset, in blocks that the bitmap has as allocated.
pub record Slot (d : DiskManager) (offset : ℕ) (b : Block) : Type 0 where
  pub start : ℕ
  pub at : offset ≡ d.superblock.data_offset + start * 4096
  pub inside : start + blocks_of b ≤ d.bitmap.num_blocks
  pub taken : (j : ℕ) → within start (blocks_of b) j ≡ true → is_allocated d.bitmap j ≡ true
  pub held : Holds d.io offset (block_bytes b)
  pub fits : Fits b

abbrev pub Apart : ℕ → Block → ℕ → Block → Type 0
Apart o b p c = (o + blocks_of b * 4096 ≤ p) ⊎ (p + blocks_of c * 4096 ≤ o)

-- The disk stores these blocks, and no two of them overlap.
pub record Represents (d : DiskManager) (blocks : Map Block) : Type 0 where
  pub valid : IsValid d
  pub slots : (o : ℕ) (b : Block) → Map.find o blocks ≡ some b → Slot d o b
  pub apart :
      (o p : ℕ) (b c : Block)
      → Map.find o blocks ≡ some b
      → Map.find p blocks ≡ some c
      → o ≢ p
      → Apart o b p c

module _ (d : DiskManager) (v : IsValid d) where
  abbrev pub saved_io : Device
  saved_io = record d.io {
    bytes = write_over 0 d.superblock.bitmap_offset d.bitmap.bitmap d.io.bytes;
  }

  pub save_bitmap_lem : save_bitmap d ≡ record d { io = saved_io }
  unfolding save_bitmap
  save_bitmap_lem =
      let bm = d.bitmap.bitmap in
      let whole : take (length bm % u32_mod) bm ≡ bm =
        ap (λ (n : ℕ). take n bm) (omega (arith, v.bitmap_small))
        ∙ ap (λ (t : List ℕ). take (length bm) t) (sym (append-nil bm))
        ∙ take-length_append bm [] in
      let written =
        write_device-ok d.io d.superblock.bitmap_offset bm v.opened v.good
          (omega (arith, v.bitmap_area, v.room)) in
      ap (λ (t : List ℕ). record d { io = (write_device d.io d.superblock.bitmap_offset t).0 })
        whole
      ∙ ap (λ (r : Device × Result (Unit {0})). record d { io = r.0 }) written

  save_bitmap-Slot : (o : ℕ) (b : Block) → Slot d o b → Slot (record d { io = saved_io }) o b
  save_bitmap-Slot o b s = record {
    start = s.start;
    at = s.at;
    inside = s.inside;
    taken = s.taken;
    held =
        write_over-Holds d.io d.superblock.bitmap_offset o d.bitmap.bitmap (block_bytes b) s.held
          (inr (omega (arith, v.bitmap_area, s.at)));
    fits = s.fits;
  }

-- Saving the bitmap touches no block.
pub save_bitmap-Represents :
    (d : DiskManager) (blocks : Map Block) → Represents d blocks → Represents (save_bitmap d) blocks
save_bitmap-Represents d blocks r =
    let v = r.valid in
    subst (λ (x : DiskManager). Represents x blocks) (sym (save_bitmap_lem d v))
      (record {
        valid = record {
          bitmap_valid = v.bitmap_valid;
          bitmap_area = v.bitmap_area;
          bitmap_small = v.bitmap_small;
          room = v.room;
          no_wrap = v.no_wrap;
          opened = v.opened;
          good = v.good;
          running = v.running;
        };
        slots = λ o b found. save_bitmap-Slot d v o b (r.slots o b found);
        apart = r.apart;
      })
