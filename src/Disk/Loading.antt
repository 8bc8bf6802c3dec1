-- ===== src/Disk/Loading.antt =====
-- Opening a path whose file holds a superblock and a bitmap.
use openfs.Common.{
  false, ℕ, ◌*◌, ◌%◌, ◌<◌, ◌≤◌, ◌≡◌, List, ◌++◌, some, true, length, take, drop, u64_mod, u32_mod,
  arith, refl, ap, sym, ◌∙◌, length-take, take-add,
}
use openfs.Types.{ok}
use openfs.Bitmap
use openfs.Crc.{compute_crc32}
use openfs.Wal.{open_wal}
use openfs.Device.{open_device, opened_device, read_device}
use openfs.Device.Laws.{read_device-Holds}
use openfs.Disk.{DiskManager, DiskSuperBlock, normal}
use openfs.Disk.Format.{
  checksummed, open_existing, open_valid, load_bitmap, DiskFiles, read_super_block,
  validate_super_block, parse_super_block,
}
use openfs.Disk.Parsing
use openfs.Disk.Parsing.{
  label_of, length-label_of, parse_super_block-label_of, validate_super_block-label_of,
}

-- The file begins with this superblock, and holds these bytes where it has the bitmap.
pub record OnDisk (sb : DiskSuperBlock) (file bm : List ℕ) : Type 0 where
  pub parsing : Parsing.Fits sb
  pub signed_by : sb.checksum ≡ compute_crc32 (checksummed sb)
  pub label : take 108 file ≡ label_of sb
  pub long : 4152 ≤ length file
  pub bitmap_size : length bm ≡ sb.bitmap_blocks * 4096
  pub small : sb.bitmap_blocks * 4096 < u32_mod
  pub saved : take (length bm) (drop sb.bitmap_offset file) ≡ bm

load_bitmap_lem :
    (d : DiskManager) (buffer : List ℕ)
    → d.superblock.bitmap_blocks * 4096 < u32_mod
    → read_device d.io d.superblock.bitmap_offset (d.superblock.bitmap_blocks * 4096)
      ≡ (d.io, ok buffer)
    → load_bitmap d ≡ (record d { bitmap = Bitmap.load buffer d.superblock.data_blocks }, ok tt)
unfolding load_bitmap
load_bitmap_lem d buffer small read =
    let size : d.superblock.bitmap_blocks * 4096 % u64_mod % u32_mod
        ≡ d.superblock.bitmap_blocks * 4096 =
      omega (arith, small) in
    ground (arith, size, read)

open_valid_loads :
    (d : DiskManager) (bytes : List ℕ) (files : DiskFiles) (sb : DiskSuperBlock) (capacity : ℕ)
    (loaded : DiskManager)
    → d.io.is_open ≡ false
    → load_bitmap (record d { superblock = sb; io = opened_device bytes capacity })
      ≡ (loaded, ok tt)
    → open_valid d bytes files sb capacity
      ≡ (record loaded { wal = open_wal files.wal sb.wal_blocks capacity; state = normal }, ok tt)
unfolding open_valid open_device
open_valid_loads d bytes files sb capacity loaded closed e = ground (arith, closed, e)

open_existing_passes :
    (d : DiskManager) (files : DiskFiles) (capacity : ℕ) (file raw : List ℕ)
    → files.disk ≡ some file
    → read_super_block (some file) ≡ ok raw
    → validate_super_block raw ≡ true
    → open_existing d files capacity ≡ open_valid d file files (parse_super_block raw) capacity
unfolding open_existing
open_existing_passes d files capacity file raw at read passed = ground (arith, at, read, passed)

-- The disk that is opened.
abbrev pub opened : DiskFiles → ℕ → DiskSuperBlock → List ℕ → List ℕ → DiskManager
opened files capacity sb file bm = record {
  superblock = sb;
  bitmap = Bitmap.load bm sb.data_blocks;
  wal = open_wal files.wal sb.wal_blocks capacity;
  io = opened_device file capacity;
  state = normal;
}

module _ (d : DiskManager) (files : DiskFiles) (capacity : ℕ) (sb : DiskSuperBlock)
    (file bm : List ℕ) (at : files.disk ≡ some file) (o : OnDisk sb file bm)
    (closed : d.io.is_open ≡ false) where
  abbrev rest : List ℕ
  rest = take 4044 (drop 108 file)

  shape : take 4152 file ≡ label_of sb ++ rest
  shape = take-add 108 4044 file ∙ ap (λ (t : List ℕ). t ++ rest) o.label

  read_opened : read_super_block (some file) ≡ ok (label_of sb ++ rest)
  unfolding read_super_block
  read_opened = ground (arith, shape, length-take 4152 file o.long)

  load_opened : load_bitmap (record d { superblock = sb; io = opened_device file capacity }) ≡ (
    record d {
      superblock = sb;
      io = opened_device file capacity;
      bitmap = Bitmap.load bm sb.data_blocks;
    },
    ok tt,
  )
  load_opened =
      load_bitmap_lem (record d { superblock = sb; io = opened_device file capacity }) bm o.small
        (read_device-Holds (opened_device file capacity) sb.bitmap_offset (sb.bitmap_blocks * 4096)
          bm refl refl (sym o.bitmap_size) o.saved)

  -- OpenExisting succeeds, with this superblock, this bitmap and this file.
  pub open_existing-OnDisk :
      open_existing d files capacity ≡ (opened files capacity sb file bm, ok tt)
  open_existing-OnDisk =
      open_existing_passes d files capacity file (label_of sb ++ rest) at read_opened
        (validate_super_block-label_of sb o.parsing rest o.signed_by)
      ∙ ap (λ (x : DiskSuperBlock). open_valid d file files x capacity)
          (parse_super_block-label_of sb o.parsing rest)
      ∙ open_valid_loads d file files sb capacity
          (record d {
            superblock = sb;
            io = opened_device file capacity;
            bitmap = Bitmap.load bm sb.data_blocks;
          })
          closed load_opened
