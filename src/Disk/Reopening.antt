-- ===== src/Disk/Reopening.antt =====
-- What a disk stores is on its device after every request: a path that is opened again, without any
-- closing, gives the same blocks.
use openfs.Common.{
  ℕ, ◌+◌, ◌*◌, ◌/◌, ◌%◌, ◌<◌, ◌≤◌, ◌≡◌, ◌≢◌, List, [], ◌∷◌, some, true, length, take, drop,
  write_over, ltb, false, u32_mod, u64_mod, arith, refl, ap, sym, ◌∙◌, subst,
  take-drop-write_over_before, take-drop-write_over_self, length-write_over, length-take,
}
use native.Mathlib.Decide.{ℕ_discrete}
use openfs.Common.Map.{Map}
use openfs.Types.{Result, ok}
use openfs.Bitmap.{BlockBitmap, free, invalid_block_index, load, is_allocated}
use openfs.Bitmap.Ranges
use openfs.Bitmap.Ranges.{length-allocate, num_blocks-allocate, length-free, num_blocks-free}
use openfs.Crc.{compute_crc32}
use openfs.Wal.{WalFile}
use openfs.Disk.{DiskManager, save_bitmap, delete_block, is_normal}
use openfs.Disk.Format.{DiskFiles, open_existing, checksummed}
use openfs.Disk.Parsing
use openfs.Disk.Parsing.{label_of}
use openfs.Disk.Loading.{opened, open_existing-OnDisk}
use openfs.Disk.Layout.{Block, Fits}
use openfs.Disk.Store
use openfs.Disk.Store.{Represents, Slot, blocks_of, saved_io, save_bitmap_lem}
use openfs.Disk.Writing
use openfs.Disk.Writing.{store}
use openfs.Disk.Deleting
use openfs.Disk.Refinement.{
  Request, write, read, delete, handle, run, Legal, AllLegal, advance, Trace, read_block-Represents,
  handle-Step, run-Trace,
}

-- The device holds the superblock, and has room for a bitmap of this size.
pub record Labelled (d : DiskManager) : Type 0 where
  pub parsing : Parsing.Fits d.superblock
  pub signed_by : d.superblock.checksum ≡ compute_crc32 (checksummed d.superblock)
  pub label : take 108 d.io.bytes ≡ label_of d.superblock
  pub long : 4152 ≤ length d.io.bytes
  pub bitmap_size : length d.bitmap.bitmap ≡ d.superblock.bitmap_blocks * 4096
  pub small : d.superblock.bitmap_blocks * 4096 < u32_mod
  pub counted : d.bitmap.num_blocks ≡ d.superblock.data_blocks
  pub behind : 108 ≤ d.superblock.bitmap_offset

-- The device holds the bitmap too.
pub record Persisted (d : DiskManager) : Type 0 where
  pub labelled : Labelled d
  pub saved :
      take (length d.bitmap.bitmap) (drop d.superblock.bitmap_offset d.io.bytes) ≡ d.bitmap.bitmap

-- A write behind the label keeps it.
label_kept :
    (offset : ℕ) (buffer bytes : List ℕ)
    → 108 ≤ offset
    → 4152 ≤ length bytes
    → take 108 (write_over 0 offset buffer bytes) ≡ take 108 bytes
label_kept offset buffer bytes behind long =
    take-drop-write_over_before 0 0 108 offset buffer bytes (omega (arith, behind))
      (omega (arith, length-take 108 bytes (omega (arith, long))))

module _ (d : DiskManager) (v : Store.IsValid d) (l : Labelled d) where
  save_bitmap-Persisted : Persisted (save_bitmap d)
  save_bitmap-Persisted =
      let at = d.superblock.bitmap_offset in
      let bm = d.bitmap.bitmap in
      subst Persisted (sym (save_bitmap_lem d v)) (record {
        labelled = record {
          parsing = l.parsing;
          signed_by = l.signed_by;
          label = label_kept at bm d.io.bytes l.behind l.long ∙ l.label;
          long = omega (arith, l.long, length-write_over 0 at bm d.io.bytes);
          bitmap_size = l.bitmap_size;
          small = l.small;
          counted = l.counted;
          behind = l.behind;
        };
        saved = take-drop-write_over_self 0 at bm d.io.bytes;
      })

module _ (d : DiskManager) (blocks : Map Block) (r : Represents d blocks) (p : Persisted d) where
  abbrev v : Store.IsValid d
  v = r.valid

  abbrev l : Labelled d
  l = p.labelled

  written-Labelled :
      (b : Block) (fits : Fits b)
      → Writing.start d blocks b r fits ≢ invalid_block_index
      → Labelled (Writing.written d blocks b r fits)
  written-Labelled b fits found =
      let n = blocks_of b in
      let at = Writing.offset d blocks b r fits in
      let buffer = Writing.buffer d blocks b r fits in
      record {
        parsing = l.parsing;
        signed_by = l.signed_by;
        label =
            label_kept at buffer d.io.bytes (omega (arith, l.behind, v.bitmap_area)) l.long
            ∙ l.label;
        long = omega (arith, l.long, length-write_over 0 at buffer d.io.bytes);
        bitmap_size = length-allocate d.bitmap n ∙ l.bitmap_size;
        small = l.small;
        counted = num_blocks-allocate d.bitmap n v.bitmap_valid ∙ l.counted;
        behind = l.behind;
      }

  store-Persisted : (b : Block) → Fits b → Persisted (store d b).0
  store-Persisted b fits =
      let start = Writing.start d blocks b r fits in
      elim (ℕ_discrete start invalid_block_index) [
        | yes full ↦
            subst (λ (x : DiskManager × Result ℕ). Persisted x.0)
              (sym (Writing.store_full d blocks b r fits full)) p
        | no found ↦
            subst (λ (x : DiskManager × Result ℕ). Persisted x.0)
              (sym (Writing.store-written d blocks b r fits found))
              (save_bitmap-Persisted (Writing.written d blocks b r fits)
                (Writing.written-Represents d blocks b r fits found).valid
                (written-Labelled b fits found))
      ]

  freed-Labelled : (s n : ℕ) → Labelled (record d { bitmap = free d.bitmap s n })
  freed-Labelled s n = record {
    parsing = l.parsing;
    signed_by = l.signed_by;
    label = l.label;
    long = l.long;
    bitmap_size = length-free d.bitmap s n ∙ l.bitmap_size;
    small = l.small;
    counted = num_blocks-free d.bitmap n v.bitmap_valid s ∙ l.counted;
    behind = l.behind;
  }

  handle-Persisted : (q : Request) → Legal blocks q → Persisted (handle d q).0
  unfolding handle Legal delete_block
  handle-Persisted (write b) fits = store-Persisted b fits
  handle-Persisted (read o) (b, there) = rw (read_block-Represents d blocks o b r there) p
  handle-Persisted (delete o size) (b, there, sized) =
      let start = (Deleting.slot d blocks r o b there).start in
      let saved =
        save_bitmap-Persisted (Deleting.freed d blocks r o b there)
          (Deleting.freed-Represents d blocks r o b there).valid
          (freed-Labelled start (blocks_of b)) in
      rw (sized, v.running, Deleting.release_lem d blocks r o b there) saved

run-Persisted :
    (d : DiskManager) (blocks : Map Block) (qs : List Request)
    → Represents d blocks
    → Persisted d
    → AllLegal d blocks qs
    → Persisted (run d qs).0
unfolding run AllLegal
run-Persisted d blocks [] r p legal = p
run-Persisted d blocks (q ∷ qs) r p (legal, later) =
    let (_, r') = handle-Step d blocks q r legal in
    run-Persisted (handle d q).0 (advance blocks q (handle d q).1) qs r'
      (handle-Persisted d blocks r p q legal) later

-- A bitmap that is loaded from its own bytes.
load_self :
    (b : BlockBitmap) (num_blocks : ℕ)
    → Ranges.IsValid b
    → b.num_blocks ≡ num_blocks
    → load b.bitmap num_blocks ≡ b
unfolding load
load_self b num_blocks v e =
    let enough : ltb (length b.bitmap) ((num_blocks + 7) % u64_mod / 8) ≡ false =
      ground (arith, v.covers, v.fits, e) in
    rw enough (ap (λ (k : ℕ). record b { num_blocks = k }) (sym e))

module _ (d : DiskManager) (blocks : Map Block) (r : Represents d blocks) (p : Persisted d)
    (wal : WalFile) where
  abbrev files : DiskFiles
  files = record { disk = some d.io.bytes; wal = wal }

  abbrev again : DiskManager
  again = opened files d.io.capacity d.superblock d.io.bytes d.bitmap.bitmap

  same_bitmap : again.bitmap ≡ d.bitmap
  same_bitmap = load_self d.bitmap d.superblock.data_blocks r.valid.bitmap_valid p.labelled.counted

  again_Slot : (o : ℕ) (b : Block) → Slot d o b → Slot again o b
  again_Slot o b s = record {
    start = s.start;
    at = s.at;
    inside =
        subst (λ (x : BlockBitmap). s.start + blocks_of b ≤ x.num_blocks) (sym same_bitmap)
          s.inside;
    taken =
        λ j h. subst (λ (x : BlockBitmap). is_allocated x j ≡ true) (sym same_bitmap) (s.taken j h);
    held = s.held;
    fits = s.fits;
  }

  again-Represents : Represents again blocks
  unfolding is_normal
  again-Represents =
      let v = r.valid in
      let size : length again.bitmap.bitmap ≡ length d.bitmap.bitmap =
        ap (λ (x : BlockBitmap). length x.bitmap) same_bitmap in
      record {
        valid = record {
          bitmap_valid = subst Ranges.IsValid (sym same_bitmap) v.bitmap_valid;
          bitmap_area = omega (arith, size, v.bitmap_area);
          bitmap_small = omega (arith, size, v.bitmap_small);
          room = omega (arith, ap (λ (x : BlockBitmap). x.num_blocks) same_bitmap, v.room);
          no_wrap = v.no_wrap;
          opened = refl;
          good = refl;
          running = refl;
        };
        slots = λ o b found. again_Slot o b (r.slots o b found);
        apart = r.apart;
      }

  open_existing-Persisted :
      (e : DiskManager)
      → e.io.is_open ≡ false
      → open_existing e files d.io.capacity ≡ (again, ok tt)
  open_existing-Persisted e closed =
      let l = p.labelled in
      open_existing-OnDisk e files d.io.capacity d.superblock d.io.bytes d.bitmap.bitmap refl
        (record {
          parsing = l.parsing;
          signed_by = l.signed_by;
          label = l.label;
          long = l.long;
          bitmap_size = l.bitmap_size;
          small = l.small;
          saved = p.saved;
        })
        closed

-- After any run of legal requests on a disk that stores some blocks and has them and its bitmap
-- on the device, opening what the device then holds, by a manager that has no disk open,
-- succeeds, and gives a disk that stores the same blocks: those that the answers to the requests
-- tell of.
pub open_existing-run :
    (d e : DiskManager) (blocks : Map Block) (qs : List Request) (wal : WalFile)
    → Represents d blocks
    → Persisted d
    → AllLegal d blocks qs
    → e.io.is_open ≡ false
    → (last : Map Block) × (again : DiskManager) × Trace blocks qs (run d qs).1 last
      × (open_existing e
            (record { disk = some (run d qs).0.io.bytes; wal = wal })
            (run d qs).0.io.capacity
          ≡ (again, ok tt))
      × Represents again last
open_existing-run d e blocks qs wal r p legal closed =
    let (last, t, r') = run-Trace d blocks qs r legal in
    let d' = (run d qs).0 in
    let p' = run-Persisted d blocks qs r p legal in
    (
      last,
      again d' last r' p' wal,
      t,
      open_existing-Persisted d' last r' p' wal e closed,
      again-Represents d' last r' p' wal,
    )
