-- ===== src/Disk/Format.antt =====
-- src/data/disk_manager.cpp: formatting a disk, and opening one. A path is the bytes of its file, if
-- there is one, and the file of its log; every byte that Format writes is taken. The clocks are
-- arguments. The bytes of a `DiskSuperBlock` between its members are zeros.
use openfs.Common.{
  ℕ, zero, suc, ◌+◌, ◌-◌, ◌*◌, ◌/◌, ◌%◌, List, [], ◌∷◌, ◌++◌, Option, none, some, Bool, false, ◌&&◌,
  length, take, drop, replicate, ltb, ◌==◌, eqs, if◌then◌else◌, u32_mod, u64_mod, le_bytes,
  le_value,
}
use openfs.Types.{Result, ok, err, invalid_argument, io_error, not_found, internal}
use openfs.Bitmap
use openfs.Wal.{WalFile, open_wal}
use openfs.Device.{open_device, close_device, read_device}
use openfs.Crc.{compute_crc32}
use openfs.Disk.{DiskManager, DiskSuperBlock, normal, physical_block_size}

-- kSuperBlockSize, kDiskMagic ("OFSB0001"), kDiskFormatVersion, kWalDefaultBlocks
abbrev pub super_block_size : ℕ
super_block_size = 4096

abbrev pub disk_magic : List ℕ
disk_magic = b'O' ∷ b'F' ∷ b'S' ∷ b'B' ∷ b'0' ∷ b'0' ∷ b'0' ∷ b'1' ∷ []

abbrev pub disk_format_version : ℕ
disk_format_version = 1

abbrev pub wal_default_blocks : ℕ
wal_default_blocks = 256

-- `sizeof(DiskSuperBlock)`: the members up to the checksum take 104 bytes, and `reserved` is of
-- 4040 bytes.
abbrev pub super_block_bytes : ℕ
super_block_bytes = 4152

-- The members before the checksum.
unfoldable pub checksummed : DiskSuperBlock → List ℕ
checksummed sb =
    sb.magic
    ++ le_bytes 2 sb.version
    ++ replicate 6 0
    ++ le_bytes 8 sb.disk_uuid
    ++ le_bytes 8 sb.node_id
    ++ le_bytes 4 sb.disk_index
    ++ le_bytes 4 sb.block_size
    ++ le_bytes 8 sb.total_blocks
    ++ le_bytes 8 sb.bitmap_offset
    ++ le_bytes 8 sb.bitmap_blocks
    ++ le_bytes 8 sb.wal_offset
    ++ le_bytes 8 sb.wal_blocks
    ++ le_bytes 8 sb.data_offset
    ++ le_bytes 8 sb.data_blocks
    ++ le_bytes 8 sb.create_time

-- The bytes of the struct.
unfoldable pub print_super_block : DiskSuperBlock → List ℕ
print_super_block sb = checksummed sb ++ le_bytes 4 sb.checksum ++ replicate 4044 0

abbrev pub field : ℕ → ℕ → List ℕ → ℕ
field at size raw = le_value (take size (drop at raw))

-- The struct of these bytes.
unfoldable pub parse_super_block : List ℕ → DiskSuperBlock
parse_super_block raw = record {
  magic = take 8 raw;
  version = field 8 2 raw;
  disk_uuid = field 16 8 raw;
  node_id = field 24 8 raw;
  disk_index = field 32 4 raw;
  block_size = field 36 4 raw;
  total_blocks = field 40 8 raw;
  bitmap_offset = field 48 8 raw;
  bitmap_blocks = field 56 8 raw;
  wal_offset = field 64 8 raw;
  wal_blocks = field 72 8 raw;
  data_offset = field 80 8 raw;
  data_blocks = field 88 8 raw;
  create_time = field 96 8 raw;
  checksum = field 104 4 raw;
}

-- `total_blocks - 1 - bitmap_blocks - wal_blocks`, which wraps.
unfoldable pub data_blocks_left : ℕ → ℕ → ℕ → ℕ
data_blocks_left total_blocks wal_blocks bitmap_blocks =
    (total_blocks + u64_mod - (1 + bitmap_blocks + wal_blocks) % u64_mod) % u64_mod

unfoldable pub needed_bitmap_blocks : ℕ → ℕ
needed_bitmap_blocks data_blocks =
    ((data_blocks + 7) % u64_mod / 8 + physical_block_size - 1) / physical_block_size

-- The loop of `Format`, for the rounds left.
unfoldable pub size_bitmap : ℕ → ℕ → ℕ → ℕ → ℕ
size_bitmap zero total_blocks wal_blocks bitmap_blocks = bitmap_blocks
size_bitmap (suc rounds) total_blocks wal_blocks bitmap_blocks =
    let needed = needed_bitmap_blocks (data_blocks_left total_blocks wal_blocks bitmap_blocks) in
    let rest = size_bitmap rounds total_blocks wal_blocks needed in
    if needed == bitmap_blocks then bitmap_blocks else rest

-- The superblock of `Format`, before the checksum.
unfoldable pub layout : ℕ → ℕ → ℕ → ℕ → ℕ → ℕ → DiskSuperBlock
layout disk_size wal_blocks node_id disk_index disk_uuid create_time =
    let wal_blocks' = if wal_blocks == 0 then wal_default_blocks else wal_blocks in
    let total_blocks = disk_size / physical_block_size in
    let bitmap_blocks = size_bitmap 10 total_blocks wal_blocks' 1 in
    record {
      magic = disk_magic;
      version = disk_format_version;
      disk_uuid = disk_uuid;
      node_id = node_id;
      disk_index = disk_index;
      block_size = physical_block_size;
      total_blocks = total_blocks;
      bitmap_offset = super_block_size;
      bitmap_blocks = bitmap_blocks;
      wal_offset = 0;
      wal_blocks = wal_blocks';
      data_offset = (super_block_size + bitmap_blocks * physical_block_size) % u64_mod;
      data_blocks = data_blocks_left total_blocks wal_blocks' bitmap_blocks;
      create_time = create_time;
      checksum = 0;
    }

abbrev pub signed : DiskSuperBlock → DiskSuperBlock
signed sb = record sb { checksum = compute_crc32 (checksummed sb) }

-- What stands at a path, and beside it at the path of the log.
pub record DiskFiles : Type 0 where
  pub disk : Option (List ℕ)
  pub wal : WalFile

-- The files of a new disk.
unfoldable pub format_files : DiskSuperBlock → DiskFiles
format_files sb = record {
  disk = some (
      print_super_block sb
      ++ replicate (sb.bitmap_blocks * physical_block_size) 0
      ++ replicate (sb.data_blocks * physical_block_size) 0);
  wal = record { size = sb.wal_blocks * physical_block_size; headers = [] };
}

unfoldable pub format : ℕ → ℕ → ℕ → ℕ → ℕ → ℕ → Result DiskFiles
format disk_size wal_blocks node_id disk_index disk_uuid create_time =
    let sb = layout disk_size wal_blocks node_id disk_index disk_uuid create_time in
    if ltb (disk_size / physical_block_size) ((3 + sb.wal_blocks) % u64_mod)
    then err invalid_argument
    else ok (format_files (signed sb))

-- `ReadSuperBlock`: the bytes of the struct.
unfoldable pub read_super_block : Option (List ℕ) → Result (List ℕ)
read_super_block none = err not_found
read_super_block (some file) =
    let raw = take super_block_bytes file in
    if ltb (length raw) super_block_bytes then err io_error else ok raw

unfoldable pub is_formatted : Option (List ℕ) → Bool
is_formatted file = elim (read_super_block file) [
  | err _ ↦ false
  | ok raw ↦ eqs (take 8 raw) disk_magic
]

unfoldable pub validate_super_block : List ℕ → Bool
validate_super_block raw =
    eqs (take 8 raw) disk_magic
    && field 8 2 raw == disk_format_version
    && field 36 4 raw == physical_block_size
    && compute_crc32 (take 104 raw) == field 104 4 raw

-- `LoadBitmap`
unfoldable pub load_bitmap : DiskManager → DiskManager × Result (Unit {0})
load_bitmap d =
    let (io, r) =
      read_device d.io d.superblock.bitmap_offset
        (d.superblock.bitmap_blocks * physical_block_size % u64_mod % u32_mod) in
    elim r [
      | err s ↦ (record d { io = io }, err s)
      | ok buffer ↦
          (record d { io = io; bitmap = Bitmap.load buffer d.superblock.data_blocks }, ok tt)
    ]

-- `OpenExisting` on a superblock that passed, where the device takes `capacity` bytes for the disk
-- and for the log.
unfoldable pub open_valid :
    DiskManager → List ℕ → DiskFiles → DiskSuperBlock → ℕ → DiskManager × Result (Unit {0})
open_valid d bytes files sb capacity =
    let (loaded, r) =
      load_bitmap (record d { superblock = sb; io = open_device d.io bytes capacity }) in
    elim r [
      | err s ↦ (record loaded { io = close_device loaded.io }, err s)
      | ok _ ↦
          (record loaded { wal = open_wal files.wal sb.wal_blocks capacity; state = normal }, ok tt)
    ]

unfoldable pub open_existing : DiskManager → DiskFiles → ℕ → DiskManager × Result (Unit {0})
open_existing d files capacity =
    let bytes : List ℕ = elim files.disk [ none ↦ [] | some file ↦ file ] in
    elim (read_super_block files.disk) [
      | err s ↦ (d, err s)
      | ok raw ↦
          if validate_super_block raw
          then open_valid d bytes files (parse_super_block raw) capacity
          else (d, err internal)
    ]

-- The size that `Open` formats a path with.
unfoldable pub default_size : Option (List ℕ) → ℕ
default_size file =
    let size : ℕ = elim file [ none ↦ 0 | some bytes ↦ length bytes ] in
    if ltb size (physical_block_size * 10) then 16 * 1024 * 1024 else size

-- `Open`: the disk, and the files that it leaves.
unfoldable pub open_disk :
    DiskManager → DiskFiles → ℕ → ℕ → ℕ → ℕ → ℕ → DiskManager × DiskFiles × Result (Unit {0})
open_disk d files node_id disk_index disk_uuid create_time capacity =
    let (existing, r) = open_existing d files capacity in
    if is_formatted files.disk
    then (existing, files, r)
    else elim (format (default_size files.disk) wal_default_blocks node_id disk_index disk_uuid
        create_time) [
          | err s ↦ (d, files, err s)
          | ok made ↦ let (fresh, r') = open_existing d made capacity in (fresh, made, r')
        ]
