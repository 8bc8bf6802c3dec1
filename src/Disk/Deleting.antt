-- ===== src/Disk/Deleting.antt =====
-- Giving the blocks of a stored block back.
use openfs.Common.{ℕ, ◌+◌, ◌-◌, ◌/◌, ◌%◌, ◌≡◌, ◌≢◌, inl, inr, false, u64_mod, arith, refl, ap, some}
use openfs.Common.Map
use openfs.Common.Map.{Map, find-erase}
use openfs.Types.{ok}
use openfs.Bitmap.{free}
use openfs.Bitmap.Ranges.{within, free-IsValid, is_allocated-free, num_blocks-free, length-free}
use openfs.Disk.{DiskManager, release, delete_block}
use openfs.Disk.Layout.{Block, size_of}
use openfs.Disk.Store
use openfs.Disk.Store.{Slot, Apart, Represents, blocks_of, save_bitmap-Represents}

module _ (d : DiskManager) (blocks : Map Block) (r : Represents d blocks) (offset : ℕ) (b : Block)
    (there : Map.find offset blocks ≡ some b) where
  abbrev pub v : Store.IsValid d
  v = r.valid

  abbrev pub slot : Slot d offset b
  slot = r.slots offset b there

  abbrev pub freed : DiskManager
  freed = record d { bitmap = free d.bitmap slot.start (blocks_of b) }

  pub release_lem : release d offset (size_of b) ≡ freed
  unfolding release
  release_lem =
      let e : (offset + u64_mod - d.superblock.data_offset) % u64_mod / 4096 ≡ slot.start =
        omega (arith, slot.at, slot.inside, v.room, v.no_wrap) in
      ap (λ (s : ℕ). record d { bitmap = free d.bitmap s (blocks_of b) }) e

  other_Slot : (o : ℕ) (c : Block) → o ≢ offset → Map.find o blocks ≡ some c → Slot freed o c
  other_Slot o c other found =
      let s = r.slots o c found in
      record {
        start = s.start;
        at = s.at;
        inside =
            omega
              (arith, s.inside, num_blocks-free d.bitmap (blocks_of b) v.bitmap_valid slot.start);
        taken = λ j h.
            let after =
              is_allocated-free d.bitmap (blocks_of b) v.bitmap_valid slot.start j
                (omega (arith, slot.inside, v.bitmap_valid.fits)) in
            let outside : within slot.start (blocks_of b) j ≡ false =
              elim (r.apart o offset c b found there other) [
                | inl before ↦ ground (arith, before, s.at, slot.at, h)
                | inr behind ↦ ground (arith, behind, s.at, slot.at, h)
              ] in
            ground (arith, after, outside, s.taken j h);
        held = s.held;
        fits = s.fits;
      }

  freed-IsValid : Store.IsValid freed
  freed-IsValid =
      let size = length-free d.bitmap slot.start (blocks_of b) in
      record {
        bitmap_valid = free-IsValid d.bitmap (blocks_of b) v.bitmap_valid slot.start;
        bitmap_area = omega (arith, v.bitmap_area, size);
        bitmap_small = omega (arith, v.bitmap_small, size);
        room =
            omega (arith, v.room, num_blocks-free d.bitmap (blocks_of b) v.bitmap_valid slot.start);
        no_wrap = v.no_wrap;
        opened = v.opened;
        good = v.good;
        running = v.running;
      }

  find_erased :
      (o : ℕ) (c : Block)
      → Map.find o (Map.erase offset blocks) ≡ some c
      → (o ≢ offset) × (Map.find o blocks ≡ some c)
  find_erased o c found =
      let e = find-erase o offset blocks in
      (λ same. ground (arith, e, same, found), ground (arith, e, found))

  pub freed-Represents : Represents freed (Map.erase offset blocks)
  freed-Represents = record {
    valid = freed-IsValid;
    slots = λ o c found. let (other, before) = find_erased o c found in other_Slot o c other before;
    apart = λ o p c e at_o at_p. r.apart o p c e (find_erased o c at_o).1 (find_erased p e at_p).1;
  }

  -- Deleting a stored block succeeds and forgets this block alone.
  pub delete_block-Represents :
      ((delete_block d offset (size_of b)).1 ≡ ok tt)
      × Represents (delete_block d offset (size_of b)).0 (Map.erase offset blocks)
  unfolding delete_block
  delete_block-Represents =
      let saved = save_bitmap-Represents freed (Map.erase offset blocks) freed-Represents in
      rw (v.running, release_lem) (refl, saved)
