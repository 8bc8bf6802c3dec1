-- ===== src/Disk/Tests.antt =====
-- A small disk, formatted and used.
use openfs.Common.{
  ◌+◌, ◌*◌, ◌≤◌, ◌≡◌, List, [], ◌∷◌, arith, refl, some, none, true, false, replicate, All, le_bytes,
}
use openfs.Common.Map
use openfs.Common.Map.{Map}
use openfs.Types.{l0, ok}
use openfs.Bitmap.{free_blocks}
use openfs.Wal.{WalManager, new_header}
use openfs.Wal.Replaying.{NoFirst}
use openfs.Disk.{
  DiskSuperBlock, is_normal, write_block, save_bitmap, disk_block_header, DiskManager, unknown,
  calc_physical_blocks, recover, read_block,
}
use openfs.Disk.Format.{
  layout, signed, format, format_files, open_existing, size_bitmap, data_blocks_left,
  needed_bitmap_blocks,
}
use openfs.Disk.Layout.{Block, Fits}
use openfs.Disk.Store.{Represents}
use openfs.Disk.Reopening.{Persisted, open_existing-run}
use openfs.Disk.Formatting.{Covers, layout-Covers, open_existing-format, layout-IsPlan}
use openfs.Disk.Planning.{IsPlan, file_of, fresh-Represents, fresh-Persisted}
use openfs.Disk.Refinement.{
  Request, write, read, delete, Spares, Trace, handle, run, AllLegal, Legal, advance, run-Trace,
  handle-Step, read_block-run,
}
use openfs.Disk.Recovering.{wal-Represents, recover-NoFirst}
use openfs.Disk.Loading.{opened}
use openfs.Device.{write_device}
use openfs.Bitmap
use openfs.Bitmap.{get_bit}

-- A disk before it is opened.
abbrev closed : DiskManager
closed = record {
  superblock = signed (layout 20480 1 7 0 99 1000);
  bitmap = record { num_blocks = 0; bitmap = [] };
  wal = record {
    wal_blocks = 0;
    next_seq = 1;
    is_open = false;
    buffer = none;
    is_good = true;
    file = record { size = 0; headers = [] };
    capacity = 0;
  };
  io = record { bytes = []; is_open = false; is_good = false; capacity = 0 };
  state = unknown;
}

sample-Covers : Covers (layout 20480 1 7 0 99 1000)
sample-Covers =
    (layout-Covers 20480 1 7 0 99 1000 (omega arith) (omega arith) (omega arith) (omega arith)).0

layout-Covers_example :
    Covers (layout 20480 1 7 0 99 1000)
    × ((layout 20480 1 7 0 99 1000).bitmap_blocks ≡ 1)
    × ((layout 20480 1 7 0 99 1000).data_blocks ≡ 2)
layout-Covers_example =
    layout-Covers 20480 1 7 0 99 1000 (omega arith) (omega arith) (omega arith) (omega arith)

made : format 20480 1 7 0 99 1000 ≡ ok (format_files (signed (layout 20480 1 7 0 99 1000)))
unfolding format layout
made = refl

room :
    (layout 20480 1 7 0 99 1000).data_offset + (layout 20480 1 7 0 99 1000).data_blocks * 4096
    ≤ 20480
unfolding layout size_bitmap data_blocks_left needed_bitmap_blocks
room = omega arith

open_existing-format_example :
    (d' : DiskManager) × (open_existing closed
        (format_files (signed (layout 20480 1 7 0 99 1000)))
        20480
      ≡ (d', ok tt))
    × Represents d' []
    × Persisted d'
    × (free_blocks d'.bitmap ≡ (layout 20480 1 7 0 99 1000).data_blocks)
open_existing-format_example =
    open_existing-format 20480 1 7 0 99 1000 closed
      (format_files (signed (layout 20480 1 7 0 99 1000))) 20480 made (omega arith) (omega arith)
      (omega arith) (omega arith) (omega arith) (omega arith) sample-Covers room (omega arith) refl

abbrev pub sb : DiskSuperBlock
sb = signed (layout 20480 1 7 0 99 1000)

planned : IsPlan sb
planned =
    layout-IsPlan 20480 1 7 0 99 1000 (omega arith) (omega arith) (omega arith) (omega arith)
      (omega arith) (omega arith) sample-Covers

-- The disk after it was formatted and opened.
abbrev pub disk : DiskManager
disk = opened (format_files sb) 20480 sb (file_of sb) (replicate (sb.bitmap_blocks * 4096) 0)

pub disk-Represents : Represents disk []
disk-Represents = fresh-Represents closed sb planned 20480 room (omega arith)

disk-Persisted : Persisted disk
disk-Persisted = fresh-Persisted closed sb planned 20480 room (omega arith)

abbrev pub block : Block
block = record {
  level = l0;
  content = record { payload = 1 ∷ 2 ∷ 3 ∷ []; crc32 = 5; block_id = 9 };
}

block-Fits : Fits block
block-Fits = record { id_fits = omega arith; crc_fits = omega arith; size_fits = omega arith }

abbrev requests : List Request
requests = write block ∷ read 8192 ∷ delete 8192 3 ∷ []

evaluation : Unit {0}
unfolding handle write_block Bitmap.allocate Bitmap.find_consecutive_free Bitmap.scan Bitmap.load
    get_bit layout size_bitmap data_blocks_left needed_bitmap_blocks calc_physical_blocks is_normal
    write_device disk_block_header le_bytes AllLegal Legal advance Map.find Map.put Spares
evaluation = tt

legal : AllLegal disk [] requests
unfolding evaluation
legal = (block-Fits, ((block, refl), ((block, refl, refl), tt)))

run-Trace_example :
    (last : Map Block) × Trace [] requests (run disk requests).1 last
    × Represents (run disk requests).0 last
run-Trace_example = run-Trace disk [] requests disk-Represents legal

open_existing-run_example :
    (last : Map Block) × (again : DiskManager) × Trace [] requests (run disk requests).1 last
    × (open_existing closed
          (record {
            disk = some (run disk requests).0.io.bytes;
            wal = record { size = 0; headers = [] };
          })
          (run disk requests).0.io.capacity
        ≡ (again, ok tt))
    × Represents again last
open_existing-run_example =
    open_existing-run disk closed [] requests (record { size = 0; headers = [] }) disk-Represents
      disk-Persisted legal refl

-- The disk after one write.
abbrev pub used : DiskManager
used = (handle disk (write block)).0

abbrev pub blocks : Map Block
blocks = Map.put 8192 block []

pub used-Represents : Represents used blocks
unfolding evaluation
used-Represents = (handle-Step disk [] (write block) disk-Represents block-Fits).1

pub stands : Map.find 8192 blocks ≡ some block
unfolding evaluation
stands = refl

later : AllLegal used blocks (write block ∷ [])
unfolding evaluation
later = (block-Fits, tt)

spared : All (Spares 8192) (write block ∷ [])
unfolding evaluation
spared = (tt, tt)

read_block-run_example : (read_block (run used (write block ∷ [])).0 8192).1 ≡ ok block.content
read_block-run_example =
    read_block-run used blocks 8192 block (write block ∷ []) used-Represents stands later spared

-- A log with an entry that was not committed, for the block that is stored.
abbrev crashed_log : WalManager
crashed_log = record {
  wal_blocks = 16;
  next_seq = 2;
  is_open = true;
  is_good = true;
  buffer = none;
  file = record { size = 4136; headers = Map.put 4096 (new_header 9 8192 3 5) [] };
  capacity = 100000;
}

abbrev crashed : DiskManager
crashed = record used { wal = crashed_log }

crashed-Represents : Represents crashed blocks
crashed-Represents = wal-Represents used blocks crashed_log used-Represents

crashed_log-NoFirst : NoFirst crashed_log
unfolding evaluation
crashed_log-NoFirst = record {
  blank = λ e. ground (arith, e);
  counted = omega arith;
  opened = refl;
}

recover-NoFirst_example :
    ((recover crashed).1 ≡ ok tt)
    × ((recover crashed).0.bitmap ≡ crashed.bitmap)
    × ((recover crashed).0.io ≡ (save_bitmap crashed).io)
    × Represents (recover crashed).0 blocks
recover-NoFirst_example = recover-NoFirst crashed blocks crashed-Represents crashed_log-NoFirst

-- A disk of 33027 blocks with 256 for the log: the estimate of the bitmap goes back and forth
-- between one block and two, and stays at one, with a bit too few for the 32769 blocks of the data.
unsettled :
    ((layout 135278592 256 7 0 99 1000).bitmap_blocks ≡ 1)
    × ((layout 135278592 256 7 0 99 1000).data_blocks ≡ 32769)
unfolding evaluation
unsettled = (refl, refl)

-- The size of a block is rounded up with its header; one of 2^32 - 32 bytes wraps to no blocks.
sizes :
    (calc_physical_blocks 0 ≡ 1)
    × (calc_physical_blocks 4064 ≡ 1)
    × (calc_physical_blocks 4065 ≡ 2)
    × (calc_physical_blocks 4294967264 ≡ 0)
unfolding evaluation
sizes = (refl, refl, refl, refl)
