-- ===== src/Disk.antt =====
-- src/data/disk_manager.h and disk_manager.cpp: a disk in the OpenFS layout, which puts together the
-- allocation bitmap, the log and the device. A method is one step.
pub mod Layout
pub mod Store
pub mod Writing
pub mod Deleting
pub mod Refinement
pub mod Format
mod Parsing
mod Loading
pub mod Planning
pub mod Formatting
pub mod Reopening
mod Recovering
pub mod Tests
use openfs.Common.{
  ℕ, ◌+◌, ◌-◌, ◌*◌, ◌/◌, ◌%◌, List, [], ◌∷◌, ◌++◌, Bool, true, false, not, ◌&&◌, length, take, drop,
  replicate, ltb, ◌==◌, if◌then◌else◌, u32_mod, u64_mod, le_bytes, le_value,
}
use openfs.Types.{BlkLevel, Result, ok, err, io_error, no_space, internal}
use openfs.Bitmap
use openfs.Bitmap.{BlockBitmap, invalid_block_index}
use openfs.Wal
use openfs.Wal.{WalManager, WalEntry}
use openfs.Device.{Device, read_device, write_device, close_device}
use openfs.Segment.{level_byte, padded}

pub data DiskState : Type 0 where
  unknown normal degraded faulted : DiskState

unfoldable pub is_normal : DiskState → Bool
is_normal unknown = false
is_normal normal = true
is_normal degraded = false
is_normal faulted = false

-- The members of `DiskSuperBlock`, less `reserved`.
pub record DiskSuperBlock : Type 0 where
  pub magic : List ℕ
  pub version : ℕ
  pub disk_uuid : ℕ
  pub node_id : ℕ
  pub disk_index : ℕ
  pub block_size : ℕ
  pub total_blocks : ℕ
  pub bitmap_offset : ℕ
  pub bitmap_blocks : ℕ
  pub wal_offset : ℕ
  pub wal_blocks : ℕ
  pub data_offset : ℕ
  pub data_blocks : ℕ
  pub create_time : ℕ
  pub checksum : ℕ

pub record DiskManager : Type 0 where
  pub superblock : DiskSuperBlock
  pub bitmap : BlockBitmap
  pub wal : WalManager
  pub io : Device
  pub state : DiskState

-- kPhysicalBlockSize, kDiskBlockHeaderSize, kDiskBlockMagic
abbrev pub physical_block_size : ℕ
physical_block_size = 4096

abbrev pub disk_block_header_size : ℕ
disk_block_header_size = 32

abbrev pub disk_block_magic : ℕ
disk_block_magic = 0x4F42524B

-- `CalcPhysicalBlocks`: the sum is one of two `uint32_t`, which wraps.
unfoldable pub calc_physical_blocks : ℕ → ℕ
calc_physical_blocks data_size =
    let total = (disk_block_header_size + data_size) % u32_mod in
    (total + physical_block_size - 1) / physical_block_size % u32_mod

-- The first 32 bytes of a `DiskBlockHeader`; the struct has eight more, zeros that the data
-- overwrites.
unfoldable pub disk_block_header : ℕ → BlkLevel → ℕ → ℕ → List ℕ
disk_block_header block_id level data_size crc32 =
    le_bytes 4 disk_block_magic
    ++ replicate 4 0
    ++ le_bytes 8 block_id
    ++ (level_byte level ∷ 0 ∷ 0 ∷ 0 ∷ [])
    ++ le_bytes 4 data_size
    ++ le_bytes 4 crc32
    ++ le_bytes 4 0

-- `SaveBitmap`; its result is not looked at.
unfoldable pub save_bitmap : DiskManager → DiskManager
save_bitmap d =
    let buffer = take (length d.bitmap.bitmap % u32_mod) d.bitmap.bitmap in
    record d { io = (write_device d.io d.superblock.bitmap_offset buffer).0 }

-- The log entry before a write, and its number; 0 when there is none.
unfoldable pub log_intent : WalManager → ℕ → ℕ → ℕ → ℕ → WalManager × ℕ
log_intent w block_id data_offset data_size crc32 =
    let (w', r) = Wal.append_entry w block_id data_offset data_size crc32 in
    if w.is_open then (w', elim r [ ok seq ↦ seq | err _ ↦ 0 ]) else (w, 0)

unfoldable pub log_commit : WalManager → ℕ → WalManager
log_commit w seq = if w.is_open && ltb 0 seq then (Wal.commit_entry w seq).0 else w

-- `WriteBlock`; `data_size`, a `uint32_t`, is the length of the payload. A block of 2^32 - 4127
-- bytes or more overruns the buffer in the source; here the buffer grows.
unfoldable pub write_block : DiskManager → ℕ → BlkLevel → List ℕ → ℕ → DiskManager × Result ℕ
write_block d block_id level payload crc32 =
    let phys_blocks = calc_physical_blocks (length payload) in
    let (start_block, bitmap) = Bitmap.allocate d.bitmap phys_blocks in
    let data_area_offset =
      (d.superblock.data_offset + start_block * physical_block_size) % u64_mod in
    let (logged, seq) = log_intent d.wal block_id data_area_offset (length payload) crc32 in
    let write_buf =
      padded (phys_blocks * physical_block_size % u32_mod)
        (disk_block_header block_id level (length payload) crc32 ++ payload) in
    let (io, r) = write_device d.io data_area_offset write_buf in
    if not (is_normal d.state)
    then (d, err internal)
    else if start_block == invalid_block_index
    then (record d { bitmap = bitmap }, err no_space)
    else elim r [
      | err s ↦ (
        record d { bitmap = Bitmap.free bitmap start_block phys_blocks; wal = logged; io = io },
        err s,
      )
      | ok _ ↦ (
        save_bitmap (record d { bitmap = bitmap; wal = log_commit logged seq; io = io }),
        ok data_area_offset,
      )
    ]

-- What `ReadBlock` gives back: the data, the checksum and the id.
pub record DiskBlock : Type 0 where
  pub payload : List ℕ
  pub crc32 : ℕ
  pub block_id : ℕ

-- `ReadBlock` after the header was read.
unfoldable pub read_payload : Device → ℕ → List ℕ → Device × Result DiskBlock
read_payload io physical_offset header =
    let data_size = le_value (take 4 (drop 20 header)) in
    let found : List ℕ → DiskBlock = λ payload. record {
      payload = payload;
      crc32 = le_value (take 4 (drop 24 header));
      block_id = le_value (take 8 (drop 8 header));
    } in
    let (io', r) =
      read_device io ((physical_offset + disk_block_header_size) % u64_mod) data_size in
    if le_value (take 4 header) == disk_block_magic
    then (if ltb 0 data_size
        then elim r [ err s ↦ (io', err s) | ok payload ↦ (io', ok (found payload)) ]
        else (io, ok (found [])))
    else (io, err internal)

unfoldable pub read_block : DiskManager → ℕ → DiskManager × Result DiskBlock
read_block d physical_offset =
    let (io, r) = read_device d.io physical_offset disk_block_header_size in
    if d.io.is_open
    then elim r [
      | err s ↦ (record d { io = io }, err s)
      | ok header ↦
          let (io', r') = read_payload io physical_offset header in (record d { io = io' }, r')
    ]
    else (d, err io_error)

-- The blocks that a block of `data_size` bytes at the offset occupies, given back to the bitmap;
-- the difference wraps.
unfoldable pub release : DiskManager → ℕ → ℕ → DiskManager
release d physical_offset data_size =
    let start_block =
      (physical_offset + u64_mod - d.superblock.data_offset) % u64_mod / physical_block_size in
    record d { bitmap = Bitmap.free d.bitmap start_block (calc_physical_blocks data_size) }

unfoldable pub delete_block : DiskManager → ℕ → ℕ → DiskManager × Result (Unit {0})
delete_block d physical_offset data_size =
    if is_normal d.state
    then (save_bitmap (release d physical_offset data_size), ok tt)
    else (d, err internal)

-- The loop of `Recover`.
unfoldable pub roll_back : DiskManager → List WalEntry → DiskManager
roll_back d [] = d
roll_back d (entry ∷ entries) =
    roll_back (if entry.committed then d else release d entry.data_offset entry.data_size) entries

unfoldable pub recover : DiskManager → DiskManager × Result (Unit {0})
recover d =
    let (w, r) = Wal.replay d.wal in
    if d.wal.is_open
    then elim r [
      | err s ↦ (record d { wal = w }, err s)
      | ok entries ↦
          let saved = save_bitmap (roll_back (record d { wal = w }) entries) in
          (record saved { wal = (Wal.reset saved.wal).0 }, ok tt)
    ]
    else (d, ok tt)

unfoldable pub close : DiskManager → DiskManager
close d =
    let saved = save_bitmap d in
    elim d.state [
      | unknown ↦ d
      | _ ↦ record saved { wal = Wal.close saved.wal; io = close_device saved.io; state = unknown }
    ]

unfoldable pub free_space : DiskManager → ℕ
free_space d = Bitmap.free_blocks d.bitmap * physical_block_size % u64_mod

unfoldable pub total_data_space : DiskManager → ℕ
total_data_space d = d.superblock.data_blocks * physical_block_size % u64_mod
