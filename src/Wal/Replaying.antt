-- ===== src/Wal/Replaying.antt =====
-- What Replay finds after a run of appends and commits.
use openfs.Common.{
  ℕ, ◌+◌, ◌*◌, ◌%◌, ◌≤◌, ◌<◌, ◌≡◌, ◌≢◌, List, [], ◌∷◌, length, true, false, ◌==◌, u64_mod, arith,
}
use native.Mathlib.Decide.{ℕ_discrete}
use openfs.Common.Map.{find-put}
use openfs.Types.{ok}
use openfs.Wal.{
  WalManager, WalEntryHeader, write_entry_header, flush, read_entry_header, header_at, new_header,
  append_entry, commit_entry, scan_entries, replay, wal_magic,
}

pub data Request : Type 0 where
  append : (block_id data_offset data_size crc32 : ℕ) → Request
  commit : (seq : ℕ) → Request

unfoldable pub step : WalManager → Request → WalManager
step w (append block_id data_offset data_size crc32) =
    (append_entry w block_id data_offset data_size crc32).0
step w (commit seq) = (commit_entry w seq).0

unfoldable pub run : WalManager → List Request → WalManager
run w [] = w
run w (r ∷ requests) = run (step w r) requests

-- Nothing that looks like an entry stands at the start of the file.
pub record NoFirst (w : WalManager) : Type 0 where
  pub blank : (header_at 0 w.file).magic ≢ wal_magic
  pub counted : 1 ≤ w.next_seq
  pub opened : w.is_open ≡ true

append-NoFirst :
    (w : WalManager) (block_id data_offset data_size crc32 : ℕ)
    → NoFirst w
    → w.next_seq * 4096 + 4096 < u64_mod
    → NoFirst (append_entry w block_id data_offset data_size crc32).0
      × ((append_entry w block_id data_offset data_size crc32).0.next_seq ≤ w.next_seq + 1)
unfolding append_entry write_entry_header flush
append-NoFirst w block_id data_offset data_size crc32 v room =
    let offset = w.next_seq * 4096 % u64_mod in
    let other : offset ≢ 0 = (λ e. omega (arith, e, v.counted, room)) in
    let h = new_header block_id data_offset data_size crc32 in
    let step : (w.next_seq + 1) % u64_mod ≡ w.next_seq + 1 = omega (arith, room) in
    (
      record {
        blank = λ e. v.blank (ground (arith, find-put 0 offset h w.file.headers, other, e));
        counted = ground (arith, step, v.counted);
        opened = ground (arith, v.opened);
      },
      ground (arith, step),
    )

not_magic : (h : WalEntryHeader) → h.magic ≢ wal_magic → (h.magic == wal_magic) ≡ false
not_magic h other = ground (arith, other)

commit-NoFirst :
    (w : WalManager) (seq : ℕ)
    → NoFirst w
    → NoFirst (commit_entry w seq).0 × ((commit_entry w seq).0.next_seq ≤ w.next_seq + 1)
unfolding commit_entry read_entry_header write_entry_header flush
commit-NoFirst w seq v =
    let offset = seq * 4096 % u64_mod in
    let h : WalEntryHeader = header_at offset w.file in
    let h' : WalEntryHeader = record h { committed = 1 } in
    elim (ℕ_discrete offset 0) [
      | yes start ↦
          let unlike : (h.magic == wal_magic) ≡ false =
            not_magic h (λ e. v.blank (rw (← start) e)) in
          (
            record {
              blank = λ e. v.blank (ground (arith, unlike, e));
              counted = ground (arith, unlike, v.counted);
              opened = ground (arith, unlike, v.opened);
            },
            ground (arith, unlike),
          )
      | no other ↦ (
        record {
          blank = λ e. v.blank (ground (arith, find-put 0 offset h' w.file.headers, other, e));
          counted = ground (arith, v.counted);
          opened = ground (arith, v.opened);
        },
        ground arith,
      )
    ]

pub run-NoFirst :
    (w : WalManager) (requests : List Request)
    → NoFirst w
    → (w.next_seq + length requests) * 4096 < u64_mod
    → NoFirst (run w requests)
unfolding run step
run-NoFirst w [] v room = v
run-NoFirst w (append b o n c ∷ requests) v room =
    let (v', next) = append-NoFirst w b o n c v (omega (arith, room)) in
    run-NoFirst (append_entry w b o n c).0 requests v' (omega (arith, room, next))
run-NoFirst w (commit seq ∷ requests) v room =
    let (v', next) = commit-NoFirst w seq v in
    run-NoFirst (commit_entry w seq).0 requests v' (omega (arith, room, next))

pub replay-NoFirst : (w : WalManager) → NoFirst w → (replay w).1 ≡ ok []
unfolding replay scan_entries read_entry_header
replay-NoFirst w v =
    let unlike = not_magic (header_at 0 w.file) v.blank in ground (arith, unlike, v.opened)

-- When the first block of an open log holds no entry, Replay returns no entry at all after any
-- appends and commits whose numbers do not wrap, since entries are stored from block 1 on and
-- Replay stops at the first block that is none.
pub replay-run :
    (w : WalManager) (requests : List Request)
    → NoFirst w
    → (w.next_seq + length requests) * 4096 < u64_mod
    → (replay (run w requests)).1 ≡ ok []
replay-run w requests v room = replay-NoFirst (run w requests) (run-NoFirst w requests v room)
