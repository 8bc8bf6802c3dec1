-- ===== src/Device.antt =====
-- src/data/block_io_engine.cpp: reading and writing bytes of a disk that is a file. The file is the
-- list of its bytes; a stream that failed stays failed until the file is opened again; `capacity` is
-- how large the device lets the file grow. The writes are of whole blocks, which the stream passes
-- to the device at once; one that fails leaves the bytes as they were. Each method holds the engine's mutex, so a method is one
-- step. Raw devices, which use direct I/O, are left out.
pub mod Laws
use openfs.Common.{
  ℕ, ◌+◌, ◌-◌, ◌*◌, ◌%◌, List, Bool, true, false, not, ◌||◌, length, take, drop, write_over, ltb,
  if◌then◌else◌, u32_mod, u64_mod,
}
use openfs.Types.{Result, ok, err, io_error}

pub record Device : Type 0 where
  pub bytes : List ℕ
  pub is_open : Bool
  pub is_good : Bool
  pub capacity : ℕ

-- A stream that was just opened on a file of these bytes.
abbrev pub opened_device : List ℕ → ℕ → Device
opened_device bytes capacity = record {
  bytes = bytes;
  is_open = true;
  is_good = true;
  capacity = capacity;
}

-- `Open` on a path whose file has these bytes. A stream that is open already fails, and keeps its
-- file.
unfoldable pub open_device : Device → List ℕ → ℕ → Device
open_device d bytes capacity =
    if d.is_open then record d { is_good = false } else opened_device bytes capacity

unfoldable pub close_device : Device → Device
close_device d = record d { is_open = false }

unfoldable pub read_device : Device → ℕ → ℕ → Device × Result (List ℕ)
read_device d offset size =
    let piece = take size (drop offset d.bytes) in
    if not d.is_open || not d.is_good
    then (d, err io_error)
    else if ltb (length piece) size
    then (record d { is_good = false }, err io_error)
    else (d, ok piece)

unfoldable pub write_device : Device → ℕ → List ℕ → Device × Result (Unit {0})
write_device d offset piece =
    if not d.is_open || not d.is_good
    then (d, err io_error)
    else if ltb d.capacity (offset + length piece)
    then (record d { is_good = false }, err io_error)
    else (record d { bytes = write_over 0 offset piece d.bytes }, ok tt)

-- `ReadBlocks` and `WriteBlocks`
unfoldable pub read_blocks : Device → ℕ → ℕ → Device × Result (List ℕ)
read_blocks d block_index num_blocks =
    read_device d (block_index * 4096 % u64_mod) (num_blocks * 4096 % u32_mod)

unfoldable pub write_blocks : Device → ℕ → List ℕ → Device × Result (Unit {0})
write_blocks d block_index piece = write_device d (block_index * 4096 % u64_mod) piece

-- `GetFileSize`; a position that cannot be told is -1.
unfoldable pub get_file_size : Device → ℕ
get_file_size d = if d.is_open then (if d.is_good then length d.bytes else u64_mod - 1) else 0
