-- ===== src/Disk/Formatting.antt =====
-- A disk that was just formatted opens, empty.
use openfs.Common.{
  false, ℕ, zero, suc, ◌+◌, ◌-◌, ◌*◌, ◌/◌, ◌<◌, ◌≤◌, ◌≡◌, [], ◌==◌, u64_mod, u32_mod, arith, refl,
  ap, ◌∙◌, if◌then◌else◌,
}
use openfs.Types.{ok}
use openfs.Bitmap.{free_blocks}
use openfs.Crc.{compute_crc32}
use openfs.Crc.Laws.{compute_crc32_lt}
use openfs.Disk.{DiskManager, DiskSuperBlock}
use openfs.Disk.Format.{
  checksummed, signed, format_files, open_existing, needed_bitmap_blocks, layout, format, DiskFiles,
  size_bitmap, data_blocks_left,
}
use openfs.Disk.Store.{Represents}
use openfs.Disk.Reopening.{Persisted}
use openfs.Disk.Planning.{IsPlan, fresh, open_existing-IsPlan}

data_blocks_left_lem :
    (total wal : ℕ)
    → wal + 3 ≤ total
    → total < u64_mod
    → data_blocks_left total wal 1 ≡ total - 2 - wal
unfolding data_blocks_left
data_blocks_left_lem total wal large fits = omega (arith, large, fits)

one_needed : (n : ℕ) → 0 < n → n ≤ 32768 → needed_bitmap_blocks n ≡ 1
unfolding needed_bitmap_blocks
one_needed n some_data small = omega (arith, some_data, small)

size_bitmap_settled :
    (rounds total wal b : ℕ)
    → needed_bitmap_blocks (data_blocks_left total wal b) ≡ b
    → size_bitmap rounds total wal b ≡ b
unfolding size_bitmap
size_bitmap_settled zero total wal b e = refl
size_bitmap_settled (suc rounds) total wal b e = ground (arith, e)

-- The checksum does not cover itself.
signed-checksum :
    (sb : DiskSuperBlock) → (signed sb).checksum ≡ compute_crc32 (checksummed (signed sb))
unfolding checksummed
signed-checksum sb = refl

-- A layout whose bitmap has a bit for every block of the data.
pub record Covers (sb : DiskSuperBlock) : Type 0 where
  pub enough : needed_bitmap_blocks sb.data_blocks ≤ sb.bitmap_blocks
  pub small : sb.bitmap_blocks * 4096 < u32_mod

module _ (disk_size wal_blocks node_id disk_index disk_uuid create_time : ℕ) where
  abbrev sb : DiskSuperBlock
  sb = layout disk_size wal_blocks node_id disk_index disk_uuid create_time

  pub layout-IsPlan :
      disk_size < u64_mod
      → wal_blocks < u64_mod
      → node_id < u64_mod
      → disk_index < u32_mod
      → disk_uuid < u64_mod
      → create_time < u64_mod
      → Covers sb
      → IsPlan (signed sb)
  unfolding layout data_blocks_left
  layout-IsPlan size wal node index uuid time c = record {
    parsing = record {
      magic_is = refl;
      version_is = refl;
      block_size_is = refl;
      disk_uuid_fits = uuid;
      node_id_fits = node;
      disk_index_fits = index;
      total_blocks_fits = omega (arith, size);
      bitmap_offset_fits = omega arith;
      bitmap_blocks_fits = omega (arith, c.small);
      wal_offset_fits = omega arith;
      wal_blocks_fits = ground (arith, wal);
      data_offset_fits = omega arith;
      data_blocks_fits = omega arith;
      create_time_fits = time;
      checksum_fits = compute_crc32_lt (checksummed sb);
    };
    signed_by = signed-checksum sb;
    covers = c.enough;
    bitmap_at = refl;
    data_at = omega (arith, c.small);
    small = c.small;
  }

  format_lem :
      (files : DiskFiles)
      → format disk_size wal_blocks node_id disk_index disk_uuid create_time ≡ ok files
      → files ≡ format_files (signed sb)
  unfolding format
  format_lem files made = ground arith

  -- A disk that was just formatted, with sizes and numbers that fit their fields and a bitmap
  -- that covers its data blocks, opens, by a manager that has no disk open, if the device has
  -- room for it: it stores no block, and all its data blocks are free.
  pub open_existing-format :
      (d : DiskManager) (files : DiskFiles) (capacity : ℕ)
      → format disk_size wal_blocks node_id disk_index disk_uuid create_time ≡ ok files
      → disk_size < u64_mod
      → wal_blocks < u64_mod
      → node_id < u64_mod
      → disk_index < u32_mod
      → disk_uuid < u64_mod
      → create_time < u64_mod
      → Covers sb
      → sb.data_offset + sb.data_blocks * 4096 ≤ capacity
      → capacity < u64_mod
      → d.io.is_open ≡ false
      → (d' : DiskManager) × (open_existing d files capacity ≡ (d', ok tt))
        × Represents d' []
        × Persisted d'
        × (free_blocks d'.bitmap ≡ sb.data_blocks)
  open_existing-format d files capacity made size wal node index uuid time c room no_wrap closed =
      let (e, r, kept, count) =
        open_existing-IsPlan d (signed sb) (layout-IsPlan size wal node index uuid time c) capacity
          room no_wrap closed in
      let same = format_lem files made in
      let p = layout-IsPlan size wal node index uuid time c in
      (
        fresh d (signed sb) p capacity room no_wrap,
        ap (λ (f : DiskFiles). open_existing d f capacity) same ∙ e,
        r,
        kept,
        count,
      )

  -- With a log of at least one block, and one to 32768 blocks left for the data beside one block
  -- of bitmap, the bitmap of a formatted disk is one block, which covers the data blocks.
  pub layout-Covers :
      0 < wal_blocks
      → wal_blocks + 3 ≤ disk_size / 4096
      → disk_size / 4096 ≤ wal_blocks + 32770
      → disk_size < u64_mod
      → Covers sb × (sb.bitmap_blocks ≡ 1) × (sb.data_blocks ≡ disk_size / 4096 - 2 - wal_blocks)
  unfolding layout
  layout-Covers some_wal large small fits =
      let total = disk_size / 4096 in
      let left : data_blocks_left total wal_blocks 1 ≡ total - 2 - wal_blocks =
        data_blocks_left_lem total wal_blocks large (omega (arith, fits)) in
      let needed : needed_bitmap_blocks (data_blocks_left total wal_blocks 1) ≡ 1 =
        one_needed _ (omega (arith, left, large)) (omega (arith, left, small)) in
      let settled = size_bitmap_settled 10 total wal_blocks 1 needed in
      let wal : (if wal_blocks == 0 then 256 else wal_blocks) ≡ wal_blocks =
        ground (arith, some_wal) in
      rw (wal, settled) (record { enough = omega (arith, needed); small = omega arith }, refl, left)
