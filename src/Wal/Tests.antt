-- ===== src/Wal/Tests.antt =====
-- Runs of the log, and instances of the theorems about it.
use openfs.Common.{ℕ, ◌*◌, ◌+◌, ◌<◌, ◌≤◌, ◌⊎◌, ◌≡◌, ◌≢◌, [], ◌∷◌, arith, refl}
use openfs.Common.Map
use openfs.Types.{ok, err, io_error}
use openfs.Wal.{
  WalFile, WalManager, write_entry_header, flush, read_entry_header, header_at, scan_seq, open_wal,
  append_entry, commit_entry, scan_entries, replay, reset,
}
use openfs.Wal.Laws.{append_entry-open_wal_fresh, commit_entry-append_entry}
use openfs.Wal.Replaying.{append, commit, run, step, NoFirst, replay-run}

logging : Unit {0}
unfolding write_entry_header flush read_entry_header scan_seq open_wal append_entry commit_entry
    scan_entries replay reset run step Map.find Map.put
logging = tt

abbrev empty_file : WalFile
empty_file = record { size = 0; headers = [] }

-- A log of 16 blocks that was reset.
abbrev log : WalManager
log = (reset (open_wal empty_file 16 100000)).0

appends : (append_entry log 7 8192 100 55).1 ≡ ok 1
unfolding logging
appends = refl

-- Two entries, one of them committed: tests/test_wal_manager.cpp expects Replay to return both.
replays_nothing :
    (replay (run log (append 7 8192 100 55 ∷ append 8 12288 50 56 ∷ commit 1 ∷ []))).1 ≡ ok []
unfolding logging
replays_nothing = refl

append_entry-open_wal_fresh_example :
    (append_entry (open_wal empty_file 16 100000) 7 8192 100 55).1 ≡ err io_error
append_entry-open_wal_fresh_example =
    append_entry-open_wal_fresh empty_file 16 100000 7 8192 100 55 (omega arith) (omega arith)
      (omega arith)

commit_entry-append_entry_example :
    ((1 * 4096 + 40 ≤ log.capacity)
      × ((commit_entry (append_entry log 7 8192 100 55).0 1).1 ≡ ok tt)
      × (header_at (1 * 4096) (commit_entry (append_entry log 7 8192 100 55).0 1).0.file ≡ record {
        magic = 0x57414C21;
        entry_size = 4096;
        block_id = 7;
        data_offset = 8192;
        data_size = 100;
        crc32 = 55;
        committed = 1;
      })
      × ((offset : ℕ)
          → offset ≢ 1 * 4096
          → Map.find offset (commit_entry (append_entry log 7 8192 100 55).0 1).0.file.headers
            ≡ Map.find offset log.file.headers))
    ⊎ ((log.capacity < 1 * 4096 + 40)
        × ((commit_entry (append_entry log 7 8192 100 55).0 1).1 ≡ err io_error)
        × ((commit_entry (append_entry log 7 8192 100 55).0 1).0.file ≡ log.file))
unfolding logging
commit_entry-append_entry_example = commit_entry-append_entry log 7 8192 100 55 1 (omega arith) refl

-- On a device that takes 4100 bytes the entry is accepted, and then cannot be committed.
abbrev full_log : WalManager
full_log = record log { capacity = 4100 }

accepted :
    ((append_entry full_log 7 8192 100 55).1 ≡ ok 1)
    × ((commit_entry (append_entry full_log 7 8192 100 55).0 1).1 ≡ err io_error)
unfolding logging
accepted = (refl, refl)

log-NoFirst : NoFirst log
unfolding logging
log-NoFirst = record { blank = λ e. omega (arith, e); counted = omega arith; opened = refl }

replay-run_example : (replay (run log (append 7 8192 100 55 ∷ commit 1 ∷ []))).1 ≡ ok []
unfolding logging
replay-run_example = replay-run log (append 7 8192 100 55 ∷ commit 1 ∷ []) log-NoFirst (omega arith)
