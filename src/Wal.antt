-- ===== src/Wal.antt =====
-- src/data/wal_manager.h and wal_manager.cpp: the write-ahead log. The log file is its size and the
-- entry headers by their offset; a part never written reads as zeros. A header is a struct of 40
-- bytes, which is what a write and a read transfer, while the bounds are tested with
-- `kWalEntryHeaderSize`, 32. A header that is written stays in the buffer of the stream until the
-- flush, which alone meets a device that is full: `capacity` is how large it lets the file grow, and
-- a flush that fails leaves the file as it was. A stream that failed stays failed until the file is
-- opened again. A method holds the manager's mutex, so a method is one step.
pub mod Laws
pub mod Replaying
mod Tests
use openfs.Common.{
  ℕ, zero, suc, ◌+◌, ◌*◌, ◌/◌, ◌%◌, List, [], ◌∷◌, Option, none, some, Bool, true, false, ◌&&◌, ltb,
  leb, ◌==◌, not, if◌then◌else◌, max, u64_mod,
}
use openfs.Common.Map
use openfs.Common.Map.{Map}
use openfs.Types.{Result, ok, err, io_error, no_space, not_found}

-- kWalBlockSize, kWalEntryHeaderSize, kWalMagic, and `sizeof(WalEntryHeader)`
abbrev pub wal_block_size : ℕ
wal_block_size = 4096

abbrev pub wal_entry_header_size : ℕ
wal_entry_header_size = 32

abbrev pub wal_magic : ℕ
wal_magic = 0x57414C21

abbrev pub header_bytes : ℕ
header_bytes = 40

pub record WalEntryHeader : Type 0 where
  pub magic : ℕ
  pub entry_size : ℕ
  pub block_id : ℕ
  pub data_offset : ℕ
  pub data_size : ℕ
  pub crc32 : ℕ
  pub committed : ℕ

abbrev pub zero_header : WalEntryHeader
zero_header = record {
  magic = 0;
  entry_size = 0;
  block_id = 0;
  data_offset = 0;
  data_size = 0;
  crc32 = 0;
  committed = 0;
}

pub record WalEntry : Type 0 where
  pub seq : ℕ
  pub block_id : ℕ
  pub data_offset : ℕ
  pub data_size : ℕ
  pub crc32 : ℕ
  pub committed : Bool

pub record WalFile : Type 0 where
  pub size : ℕ
  pub headers : Map WalEntryHeader

pub record WalManager : Type 0 where
  pub wal_blocks : ℕ
  pub next_seq : ℕ
  pub is_open : Bool
  pub is_good : Bool
  pub buffer : Option (ℕ × WalEntryHeader)
  pub file : WalFile
  pub capacity : ℕ

-- `WriteEntryHeader`: the header goes to the buffer, which holds nothing else.
unfoldable pub write_entry_header : WalManager → ℕ → WalEntryHeader → WalManager × Result (Unit {0})
write_entry_header w offset header =
    if w.is_good then (record w { buffer = some (offset, header) }, ok tt) else (w, err io_error)

-- The file with the header at the offset.
abbrev pub file_with : WalFile → ℕ → WalEntryHeader → WalFile
file_with f offset header = record {
  size = max f.size (offset + header_bytes);
  headers = Map.put offset header f.headers;
}

-- `file_.flush()`; no method looks at what becomes of it.
unfoldable pub flush : WalManager → WalManager
flush w = elim w.buffer [
  | none ↦ w
  | some (offset, header) ↦
      if w.is_good && leb (offset + header_bytes) w.capacity
      then record w { buffer = none; file = file_with w.file offset header }
      else record w { is_good = false }
]

abbrev pub header_or_zero : Option WalEntryHeader → WalEntryHeader
header_or_zero none = zero_header
header_or_zero (some h) = h

abbrev pub header_at : ℕ → WalFile → WalEntryHeader
header_at offset f = header_or_zero (Map.find offset f.headers)

-- `ReadEntryHeader`, and the read in the loops of `Open` and `Replay`.
unfoldable pub read_entry_header : WalManager → ℕ → WalManager × Result WalEntryHeader
read_entry_header w offset =
    if w.is_good && leb (offset + header_bytes) w.file.size
    then (w, ok (header_at offset w.file))
    else (record w { is_good = false }, err io_error)

abbrev pub wal_size : WalManager → ℕ
wal_size w = w.wal_blocks * wal_block_size % u64_mod

abbrev pub is_entry : WalEntryHeader → Bool
is_entry h = ltb 0 h.block_id && ltb 0 h.entry_size

abbrev pub next_offset : ℕ → WalEntryHeader → ℕ
next_offset offset h = (offset + max h.entry_size wal_block_size) % u64_mod

-- The loop of `Open`, for the rounds left.
unfoldable pub scan_seq : ℕ → WalManager → ℕ → ℕ → WalManager × ℕ
scan_seq zero w offset max_seq = (w, max_seq)
scan_seq (suc rounds) w offset max_seq =
    let (w', r) = read_entry_header w offset in
    elim r [
      | err _ ↦
          if ltb (wal_size w) ((offset + wal_entry_header_size) % u64_mod)
          then (w, max_seq)
          else (w', max_seq)
      | ok h ↦
          let max_seq' = if is_entry h then offset / wal_block_size + 1 else max_seq in
          let rest = scan_seq rounds w' (next_offset offset h) max_seq' in
          if ltb (wal_size w) ((offset + wal_entry_header_size) % u64_mod)
          then (w, max_seq)
          else if h.magic == wal_magic
          then rest
          else (w', max_seq)
    ]

-- `Open` on a file that can be opened; a missing file is created empty.
unfoldable pub open_wal : WalFile → ℕ → ℕ → WalManager
open_wal file wal_blocks capacity =
    let opened : WalManager = record {
      wal_blocks = wal_blocks;
      next_seq = 1;
      is_open = true;
      is_good = true;
      buffer = none;
      file = file;
      capacity = capacity;
    } in
    let (w, max_seq) = scan_seq (suc wal_blocks) opened 0 0 in
    record w { next_seq = (max_seq + 1) % u64_mod }

unfoldable pub close : WalManager → WalManager
close w = record w { is_open = false }

abbrev pub new_header : ℕ → ℕ → ℕ → ℕ → WalEntryHeader
new_header block_id data_offset data_size crc32 = record {
  magic = wal_magic;
  entry_size = wal_block_size;
  block_id = block_id;
  data_offset = data_offset;
  data_size = data_size;
  crc32 = crc32;
  committed = 0;
}

unfoldable pub append_entry : WalManager → ℕ → ℕ → ℕ → ℕ → WalManager × Result ℕ
append_entry w block_id data_offset data_size crc32 =
    let file_offset = w.next_seq * wal_block_size % u64_mod in
    let (w', r) =
      write_entry_header w file_offset (new_header block_id data_offset data_size crc32) in
    if not w.is_open
    then (w, err io_error)
    else if ltb (wal_size w) ((file_offset + wal_entry_header_size) % u64_mod)
    then (w, err no_space)
    else elim r [
      | err s ↦ (w', err s)
      | ok _ ↦ (record (flush w') { next_seq = (w.next_seq + 1) % u64_mod }, ok w.next_seq)
    ]

unfoldable pub commit_entry : WalManager → ℕ → WalManager × Result (Unit {0})
commit_entry w seq =
    let file_offset = seq * wal_block_size % u64_mod in
    let (w', r) = read_entry_header w file_offset in
    let mark : WalEntryHeader → WalManager × Result (Unit {0}) = λ h.
      let (written, s) = write_entry_header w' file_offset (record h { committed = 1 }) in
      elim s [ err x ↦ (written, err x) | ok _ ↦ (flush written, ok tt) ] in
    if not w.is_open
    then (w, err io_error)
    else if ltb (wal_size w) ((file_offset + wal_entry_header_size) % u64_mod)
    then (w, err not_found)
    else elim r [
      | err s ↦ (w', err s)
      | ok h ↦ if h.magic == wal_magic then mark h else (w', err not_found)
    ]

abbrev entry_of : ℕ → WalEntryHeader → WalEntry
entry_of offset h = record {
  seq = offset / wal_block_size + 1;
  block_id = h.block_id;
  data_offset = h.data_offset;
  data_size = h.data_size;
  crc32 = h.crc32;
  committed = not (h.committed == 0);
}

-- The loop of `Replay`, for the rounds left.
unfoldable pub scan_entries : ℕ → WalManager → ℕ → WalManager × List WalEntry
scan_entries zero w offset = (w, [])
scan_entries (suc rounds) w offset =
    let (w', r) = read_entry_header w offset in
    elim r [
      | err _ ↦
          if ltb (wal_size w) ((offset + wal_entry_header_size) % u64_mod)
          then (w, [])
          else (w', [])
      | ok h ↦
          let (last, entries) = scan_entries rounds w' (next_offset offset h) in
          if ltb (wal_size w) ((offset + wal_entry_header_size) % u64_mod)
          then (w, [])
          else if h.magic == wal_magic
          then (last, (if is_entry h then entry_of offset h ∷ entries else entries))
          else (w', [])
    ]

unfoldable pub replay : WalManager → WalManager × Result (List WalEntry)
replay w =
    let (w', entries) = scan_entries (suc w.wal_blocks) w 0 in
    if w.is_open then (w', ok entries) else (w, err io_error)

-- `Reset` on a file that can be opened again.
unfoldable pub reset : WalManager → WalManager × Result (Unit {0})
reset w =
    if w.is_open
    then (
      record w {
        file = record { size = 0; headers = [] };
        buffer = none;
        is_good = true;
        next_seq = 1;
      },
      ok tt,
    )
    else (w, err io_error)
