-- ===== src/Disk/Writing.antt =====
-- WriteBlock on a valid disk: it stores the block at a place of its own, or finds no room.
use openfs.Common.{
  ℕ, ◌+◌, ◌-◌, ◌*◌, ◌%◌, ◌≤◌, ◌<◌, ◌≡◌, ◌≢◌, ◌⊎◌, inl, inr, List, true, ◌||◌, length, replicate,
  u32_mod, u64_mod, write_over, arith, refl, ap, sym, subst, ◌∙◌, length-append, length-replicate,
  some, none, max, Option-cases,
}
use native.Mathlib.Decide.{dec_le, ℕ_discrete}
use openfs.Common.Map
use openfs.Common.Map.{Map, find-put}
use openfs.Types.{Result, ok, err, no_space}
use openfs.Bitmap.{BlockBitmap, allocate, is_allocated, invalid_block_index}
use openfs.Bitmap.Search.{FreeRun}
use openfs.Bitmap.Ranges
use openfs.Bitmap.Ranges.{
  within, allocate_sound, allocate_failure, allocate_fails_iff, num_blocks-allocate, run_is_free,
  length-allocate,
}
use openfs.Wal.{WalManager}
use openfs.Segment.{padded}
use openfs.Device.{Device}
use openfs.Device.Laws.{write_device-ok, write_over-Holds, write_over-Holds_self, Holds-append}
use openfs.Disk.{DiskManager, write_block, save_bitmap, log_intent, log_commit, disk_block_header}
use openfs.Disk.Layout.{
  Block, Fits, size_of, block_bytes, length-disk_block_header, calc_physical_blocks_lem,
}
use openfs.Disk.Store
use openfs.Disk.Store.{Slot, Apart, Represents, blocks_of, save_bitmap-Represents}

-- `WriteBlock` of a block.
abbrev pub store : DiskManager → Block → DiskManager × Result ℕ
store d b = write_block d b.content.block_id b.level b.content.payload b.content.crc32

blocks_of_lem :
    (b : Block) → Fits b → (32 + size_of b ≤ blocks_of b * 4096) × (blocks_of b * 4096 < u32_mod)
blocks_of_lem b fits =
    let e = calc_physical_blocks_lem (size_of b) fits.size_fits in
    (omega (arith, e), omega (arith, e, fits.size_fits))

length-block_bytes : (b : Block) → length (block_bytes b) ≡ 32 + size_of b
length-block_bytes b =
    let header = disk_block_header b.content.block_id b.level (size_of b) b.content.crc32 in
    omega (
      arith,
      length-append header b.content.payload,
      length-disk_block_header b.content.block_id b.level (size_of b) b.content.crc32,
    )

-- Free blocks and allocated ones do not meet.
free-taken :
    (bm : BlockBitmap) (s n t m : ℕ)
    → Ranges.IsValid bm
    → FreeRun bm s n
    → 0 < n
    → 0 < m
    → ((j : ℕ) → within t m j ≡ true → is_allocated bm j ≡ true)
    → (s + n ≤ t) ⊎ (t + m ≤ s)
free-taken bm s n t m valid run some_free some_taken taken = elim (dec_le (s + n) t) [
  | yes before ↦ inl before
  | no other ↦ elim (dec_le (t + m) s) [
    | yes behind ↦ inr behind
    | no meet ↦
        let j = max s t in
        let in_run : within s n j ≡ true = ground arith in
        let in_taken : within t m j ≡ true = ground arith in
        ground (arith, taken j in_taken, run_is_free bm n valid s j run in_run)
  ]
]

swap-Apart : (o p : ℕ) (b c : Block) → Apart o b p c → Apart p c o b
swap-Apart o p b c (inl before) = inr before
swap-Apart o p b c (inr behind) = inl behind

module _ (d : DiskManager) (blocks : Map Block) (b : Block) (r : Represents d blocks)
    (fits : Fits b) where
  abbrev pub v : Store.IsValid d
  v = r.valid

  abbrev pub n : ℕ
  n = blocks_of b

  abbrev pub start : ℕ
  start = (allocate d.bitmap n).0

  abbrev pub offset : ℕ
  offset = d.superblock.data_offset + start * 4096

  abbrev pub buffer : List ℕ
  buffer = padded (n * 4096 % u32_mod) (block_bytes b)

  pub length-buffer : length buffer ≡ n * 4096
  length-buffer =
      let (fit, small) = blocks_of_lem b fits in
      let zeros : List ℕ = replicate (n * 4096 % u32_mod - length (block_bytes b)) 0 in
      omega (
        arith,
        length-append (block_bytes b) zeros,
        length-replicate {A = ℕ} (n * 4096 % u32_mod - length (block_bytes b)) 0,
        length-block_bytes b,
        fit,
        small,
      )

  abbrev pub logged : WalManager × ℕ
  logged = log_intent d.wal b.content.block_id offset (size_of b) b.content.crc32

  abbrev pub written_io : Device
  written_io = record d.io { bytes = write_over 0 offset buffer d.io.bytes }

  -- The disk before the bitmap is saved.
  abbrev pub written : DiskManager
  written = record d {
    bitmap = (allocate d.bitmap n).1;
    wal = log_commit logged.0 logged.1;
    io = written_io;
  }

  pub store_full : start ≡ invalid_block_index → store d b ≡ (d, err no_space)
  unfolding write_block
  store_full e =
      let same = allocate_failure d.bitmap n v.bitmap_valid e in ground (arith, same, e, v.running)

  module _ (found : start ≢ invalid_block_index) where
    pub offset_fits : offset + n * 4096 ≤ d.io.capacity
    offset_fits =
        let (run, _, _) = allocate_sound d.bitmap n v.bitmap_valid found in
        omega (arith, run.0, v.room)

    pub store-written : store d b ≡ (save_bitmap written, ok offset)
    unfolding write_block
    store-written =
        let at : offset % u64_mod ≡ offset = omega (arith, offset_fits, v.no_wrap) in
        let done =
          write_device-ok d.io offset buffer v.opened v.good
            (omega (arith, offset_fits, length-buffer)) in
        ground (arith, at, done, found, v.running)

    abbrev Bits : ℕ → Type 0
    Bits j = is_allocated written.bitmap j ≡ (within start n j || is_allocated d.bitmap j)

    old-Apart : (o : ℕ) (c : Block) → Slot d o c → Apart offset b o c
    old-Apart o c s =
        let (run, _, _) = allocate_sound d.bitmap n v.bitmap_valid found in
        let (some_new, _) = blocks_of_lem b fits in
        let (some_old, _) = blocks_of_lem c s.fits in
        elim (free-taken d.bitmap start n s.start (blocks_of c) v.bitmap_valid run
          (omega (arith, some_new)) (omega (arith, some_old)) s.taken) [
            | inl before ↦ inl (omega (arith, before, s.at))
            | inr behind ↦ inr (omega (arith, behind, s.at))
          ]

    old_Slot : (o : ℕ) (c : Block) → Slot d o c → Slot written o c
    old_Slot o c s =
        let (_, _, after) = allocate_sound d.bitmap n v.bitmap_valid found in
        let (inside, _) = blocks_of_lem c s.fits in
        record {
          start = s.start;
          at = s.at;
          inside = omega (arith, s.inside, num_blocks-allocate d.bitmap n v.bitmap_valid);
          taken = λ j h. ground (arith, after j, s.taken j h);
          held =
              write_over-Holds d.io offset o buffer (block_bytes c) s.held (elim (old-Apart o c s) [
                | inl before ↦ inr (omega (arith, before, length-buffer))
                | inr behind ↦ inl (omega (arith, behind, length-block_bytes c, inside))
              ]);
          fits = s.fits;
        }

    new_Slot : Slot written offset b
    new_Slot =
        let (run, _, after) = allocate_sound d.bitmap n v.bitmap_valid found in
        let zeros : List ℕ = replicate (n * 4096 % u32_mod - length (block_bytes b)) 0 in
        record {
          start = start;
          at = refl;
          inside = omega (arith, run.0, num_blocks-allocate d.bitmap n v.bitmap_valid);
          taken = λ j h. ground (arith, after j, h);
          held =
              (Holds-append written_io offset (block_bytes b) zeros
                (write_over-Holds_self d.io offset buffer)).0;
          fits = fits;
        }

    written-IsValid : Store.IsValid written
    written-IsValid =
        let (_, valid, _) = allocate_sound d.bitmap n v.bitmap_valid found in
        let size = length-allocate d.bitmap n in
        record {
          bitmap_valid = valid;
          bitmap_area = omega (arith, v.bitmap_area, size);
          bitmap_small = omega (arith, v.bitmap_small, size);
          room = omega (arith, v.room, num_blocks-allocate d.bitmap n v.bitmap_valid);
          no_wrap = v.no_wrap;
          opened = v.opened;
          good = v.good;
          running = v.running;
        }

    fresh : Map.find offset blocks ≡ none
    fresh = elim (Option-cases (Map.find offset blocks)) [
      | inl absent ↦ absent
      | inr (c, there) ↦
          let (some_new, _) = blocks_of_lem b fits in
          let (some_old, _) = blocks_of_lem c (r.slots offset c there).fits in
          elim (old-Apart offset c (r.slots offset c there)) [
            | inl before ↦ absurd (omega (arith, before, some_new))
            | inr behind ↦ absurd (omega (arith, behind, some_old))
          ]
    ]

    -- What stands where after the write.
    find_written :
        (o : ℕ) (c : Block)
        → Map.find o (Map.put offset b blocks) ≡ some c
        → ((o ≡ offset) × (c ≡ b)) ⊎ ((o ≢ offset) × (Map.find o blocks ≡ some c))
    find_written o c there = elim (ℕ_discrete o offset) [
      | yes same ↦ inl (same, ground (arith, find-put o offset b blocks))
      | no other ↦ inr (other, ground (arith, find-put o offset b blocks))
    ]

    written-Apart :
        (o p : ℕ) (c e : Block)
        → Map.find o (Map.put offset b blocks) ≡ some c
        → Map.find p (Map.put offset b blocks) ≡ some e
        → o ≢ p
        → Apart o c p e
    written-Apart o p c e at_o at_p other = elim (find_written o c at_o) [
      | inl (here, same) ↦ elim (find_written p e at_p) [
        | inl (here', _) ↦ absurd (other (here ∙ sym here'))
        | inr (_, before) ↦
            subst (λ (x : Block). Apart o x p e) (sym same)
              (subst (λ (q : ℕ). Apart q b p e) (sym here) (old-Apart p e (r.slots p e before)))
      ]
      | inr (_, before) ↦ elim (find_written p e at_p) [
        | inl (here', same) ↦
            subst (λ (x : Block). Apart o c p x) (sym same)
              (subst (λ (q : ℕ). Apart o c q b) (sym here')
                (swap-Apart offset o b c (old-Apart o c (r.slots o c before))))
        | inr (_, before') ↦ r.apart o p c e before before' other
      ]
    ]

    pub written-Represents : Represents written (Map.put offset b blocks)
    written-Represents = record {
      valid = written-IsValid;
      slots = λ o c there. elim (find_written o c there) [
        | inl (here, same) ↦
            subst (λ (p : ℕ). Slot written p c) (sym here)
              (subst (λ (x : Block). Slot written offset x) (sym same) new_Slot)
        | inr (_, before) ↦ old_Slot o c (r.slots o c before)
      ];
      apart = written-Apart;
    }

-- A write on a disk that stores some blocks either finds no run of free blocks, and changes
-- nothing, or stores the block at a place that was free, beside those that were there.
pub store-Represents :
    (d : DiskManager) (blocks : Map Block) (b : Block)
    → Represents d blocks
    → Fits b
    → ((store d b ≡ (d, err no_space)) × ((t : ℕ) → ¬ FreeRun d.bitmap t (blocks_of b)))
      ⊎ ((o : ℕ) × ((store d b).1 ≡ ok o)
          × (Map.find o blocks ≡ none)
          × Represents (store d b).0 (Map.put o b blocks))
store-Represents d blocks b r fits =
    let start = (allocate d.bitmap (blocks_of b)).0 in
    let (some_new, _) = blocks_of_lem b fits in
    elim (ℕ_discrete start invalid_block_index) [
      | yes full ↦ inl (
        store_full d blocks b r fits full,
        (allocate_fails_iff d.bitmap (blocks_of b) r.valid.bitmap_valid (omega (arith, some_new))).0
            full,
      )
      | no found ↦
          let o = d.superblock.data_offset + start * 4096 in
          let e = store-written d blocks b r fits found in
          inr (
            o,
            ap (λ (x : DiskManager × Result ℕ). x.1) e,
            fresh d blocks b r fits found,
            subst (λ (x : DiskManager). Represents x (Map.put o b blocks))
                (sym (ap (λ (x : DiskManager × Result ℕ). x.0) e))
                (save_bitmap-Represents (written d blocks b r fits) (Map.put o b blocks)
                  (written-Represents d blocks b r fits found)),
          )
    ]
