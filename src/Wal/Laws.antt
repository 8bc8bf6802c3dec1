-- ===== src/Wal/Laws.antt =====
-- Appending and committing an entry; opening an empty log; and what Replay finds.
use openfs.Common.{
  ℕ, ◌+◌, ◌*◌, ◌%◌, ◌≤◌, ◌<◌, ◌≡◌, ◌≢◌, ◌⊎◌, Option, some, true, leb, u64_mod, arith, refl, ap, sym,
  ◌∙◌, Bool-cases, inl, inr,
}
use openfs.Common.Map
use openfs.Common.Map.{Map, find-put, find-put_self}
use openfs.Types.{Result, ok, err, io_error}
use openfs.Wal.{
  WalFile, WalManager, WalEntryHeader, write_entry_header, flush, read_entry_header, header_at,
  header_or_zero, new_header, scan_seq, open_wal, append_entry, commit_entry, wal_size, wal_magic,
}

-- The log after an entry was appended, and before the flush.
abbrev written : WalManager → WalEntryHeader → WalManager
written w h = record w { buffer = some (w.next_seq * 4096, h) }

-- After the flush.
abbrev appended : WalManager → WalEntryHeader → WalManager
appended w h = record (flush (written w h)) { next_seq = w.next_seq + 1 }

module _ (w : WalManager) (block_id data_offset data_size crc32 seq : ℕ)
    (no_wrap : w.next_seq * 4096 + 4096 < u64_mod) where
  abbrev header : WalEntryHeader
  header = new_header block_id data_offset data_size crc32

  append_entry_lem :
      (append_entry w block_id data_offset data_size crc32).1 ≡ ok seq
      → (append_entry w block_id data_offset data_size crc32 ≡ (appended w header, ok w.next_seq))
        × (seq ≡ w.next_seq)
        × (w.is_open ≡ true)
        × (w.is_good ≡ true)
        × (w.next_seq * 4096 + 32 ≤ wal_size w)
  unfolding append_entry write_entry_header
  append_entry_lem done =
      let at : w.next_seq * 4096 % u64_mod ≡ w.next_seq * 4096 = omega (arith, no_wrap) in
      let past : (w.next_seq * 4096 + 32) % u64_mod ≡ w.next_seq * 4096 + 32 =
        omega (arith, no_wrap) in
      let step : (w.next_seq + 1) % u64_mod ≡ w.next_seq + 1 = omega (arith, no_wrap) in
      elim (Bool-cases w.is_open) [
        | inr closed ↦ ground arith
        | inl opened ↦ elim (Bool-cases w.is_good) [
          | inr bad ↦ ground (arith, at, past)
          | inl good ↦ (
            ground (arith, at, past, step),
            ground (arith, at, past),
            opened,
            good,
            ground (arith, at, past),
          )
        ]
      ]

-- AppendEntry fails with kIOError on a log of at least two blocks that was opened on a file too
-- short for one header.
pub append_entry-open_wal_fresh :
    (file : WalFile) (wal_blocks capacity block_id data_offset data_size crc32 : ℕ)
    → file.size < 40
    → 2 ≤ wal_blocks
    → wal_blocks * 4096 < u64_mod
    → (append_entry (open_wal file wal_blocks capacity) block_id data_offset data_size crc32).1
      ≡ err io_error
unfolding append_entry open_wal scan_seq read_entry_header write_entry_header
append_entry-open_wal_fresh file wal_blocks capacity block_id data_offset data_size crc32 short
      some_room no_wrap =
    ground arith

find-put_other :
    {V : Type 0} (k j : ℕ) (v : V) (m : Map V) → k ≢ j → Map.find k (Map.put j v m) ≡ Map.find k m
find-put_other k j v m other = ground (arith, find-put k j v m, other)

module _ (w : WalManager) (h : WalEntryHeader) (no_wrap : w.next_seq * 4096 + 4096 < u64_mod)
    (opened : w.is_open ≡ true) (good : w.is_good ≡ true)
    (fits : w.next_seq * 4096 + 32 ≤ wal_size w) where
  commit_appended :
      w.next_seq * 4096 + 40 ≤ w.capacity
      → h.magic ≡ wal_magic
      → ((commit_entry (appended w h) w.next_seq).1 ≡ ok tt)
        × ((commit_entry (appended w h) w.next_seq).0.file.headers
            ≡ Map.put
                (w.next_seq * 4096)
                (record h { committed = 1 })
                (Map.put (w.next_seq * 4096) h w.file.headers))
  unfolding commit_entry read_entry_header write_entry_header flush
  commit_appended room ours =
      let at : w.next_seq * 4096 % u64_mod ≡ w.next_seq * 4096 = omega (arith, no_wrap) in
      let past : (w.next_seq * 4096 + 32) % u64_mod ≡ w.next_seq * 4096 + 32 =
        omega (arith, no_wrap) in
      let here = find-put_self (w.next_seq * 4096) h w.file.headers in
      (
        ground (arith, at, past, here, opened, good, fits, room, ours),
        ground (arith, at, past, here, opened, good, fits, room, ours),
      )

  -- On a device that is full the flush fails, and the entry cannot be committed.
  commit_unflushed :
      w.capacity < w.next_seq * 4096 + 40
      → ((commit_entry (appended w h) w.next_seq).1 ≡ err io_error)
        × ((commit_entry (appended w h) w.next_seq).0.file ≡ w.file)
  unfolding commit_entry read_entry_header flush
  commit_unflushed full =
      let at : w.next_seq * 4096 % u64_mod ≡ w.next_seq * 4096 = omega (arith, no_wrap) in
      let past : (w.next_seq * 4096 + 32) % u64_mod ≡ w.next_seq * 4096 + 32 =
        omega (arith, no_wrap) in
      (
        ground (arith, at, past, opened, good, fits, full),
        ground (arith, at, past, opened, good, fits, full),
      )

module _ (w : WalManager) (block_id data_offset data_size crc32 seq : ℕ)
    (no_wrap : w.next_seq * 4096 + 4096 < u64_mod) where
  abbrev after : WalManager
  after = (append_entry w block_id data_offset data_size crc32).0

  -- When AppendEntry succeeds and the offset of the entry does not wrap, then either the device
  -- has room for the entry, CommitEntry with the number that was returned succeeds, the entry of
  -- the log then holds the arguments of AppendEntry and the commit mark, and no other entry has
  -- changed; or the device is full, CommitEntry fails with kIOError, and the file is as it was
  -- before AppendEntry.
  pub commit_entry-append_entry :
      (append_entry w block_id data_offset data_size crc32).1 ≡ ok seq
      → ((seq * 4096 + 40 ≤ w.capacity)
          × ((commit_entry after seq).1 ≡ ok tt)
          × (header_at (seq * 4096) (commit_entry after seq).0.file ≡ record {
            magic = 0x57414C21;
            entry_size = 4096;
            block_id = block_id;
            data_offset = data_offset;
            data_size = data_size;
            crc32 = crc32;
            committed = 1;
          })
          × ((offset : ℕ)
              → offset ≢ seq * 4096
              → Map.find offset (commit_entry after seq).0.file.headers
                ≡ Map.find offset w.file.headers))
        ⊎ ((w.capacity < seq * 4096 + 40)
            × ((commit_entry after seq).1 ≡ err io_error)
            × ((commit_entry after seq).0.file ≡ w.file))
  commit_entry-append_entry done =
      let h = new_header block_id data_offset data_size crc32 in
      let h' : WalEntryHeader = record h { committed = 1 } in
      let (result, same, opened, good, fits) =
        append_entry_lem w block_id data_offset data_size crc32 seq no_wrap done in
      let at = w.next_seq * 4096 in
      let once = Map.put at h w.file.headers in
      let moved : after ≡ appended w h = ap (λ (p : WalManager × Result ℕ). p.0) result in
      let c : commit_entry after seq ≡ commit_entry (appended w h) w.next_seq =
        ap (λ (x : WalManager). commit_entry x seq) moved
        ∙ ap (λ (n : ℕ). commit_entry (appended w h) n) same in
      let at_seq : seq * 4096 ≡ at = ap (λ (n : ℕ). n * 4096) same in
      elim (Bool-cases (leb (at + 40) w.capacity)) [
        | inr full ↦
            let (failed, kept) =
              commit_unflushed w h no_wrap opened good fits (ground (arith, full)) in
            inr (
              ground (arith, full, at_seq),
              ap (λ (p : WalManager × Result (Unit {0})). p.1) c ∙ failed,
              ap (λ (p : WalManager × Result (Unit {0})). p.0.file) c ∙ kept,
            )
        | inl room ↦
            let (passed, headers) =
              commit_appended w h no_wrap opened good fits (ground (arith, room)) refl in
            let table : (commit_entry after seq).0.file.headers ≡ Map.put at h' once =
              ap (λ (p : WalManager × Result (Unit {0})). p.0.file.headers) c ∙ headers in
            inl (
              ground (arith, room, at_seq),
              ap (λ (p : WalManager × Result (Unit {0})). p.1) c ∙ passed,
              ap (λ (o : Option WalEntryHeader). header_or_zero o)
                  (ap (λ (n : ℕ). Map.find n (commit_entry after seq).0.file.headers) at_seq
                    ∙ ap (λ (m : Map WalEntryHeader). Map.find at m) table
                    ∙ find-put_self at h' once),
              λ offset other.
                  let other' : offset ≢ at = (λ e. other (e ∙ sym at_seq)) in
                  ap (λ (m : Map WalEntryHeader). Map.find offset m) table
                  ∙ find-put_other offset at h' once other'
                  ∙ find-put_other offset at h w.file.headers other',
            )
      ]
