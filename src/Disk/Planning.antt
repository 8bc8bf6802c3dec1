-- ===== src/Disk/Planning.antt =====
-- A disk whose areas follow a plan, with nothing in them yet, opens: it stores no block.
use openfs.Common.{
  false, ℕ, zero, suc, ◌+◌, ◌*◌, ◌/◌, ◌<◌, ◌≤◌, ◌≡◌, List, [], ◌∷◌, ◌++◌, some, length, take, drop,
  replicate, length-append, length-replicate, take-length_append, drop-append, replicate-add,
  drop-replicate, append_assoc, u64_mod, u32_mod, arith, refl, ap, sym, ◌∙◌, subst,
}
use openfs.Types.{ok}
use openfs.Common.Map
use openfs.Bitmap
use openfs.Bitmap.{free_blocks}
use openfs.Bitmap.Counts.{load-zeros}
use openfs.Crc.{compute_crc32}
use openfs.Disk.{DiskManager, DiskSuperBlock, is_normal}
use openfs.Disk.Format.{
  checksummed, print_super_block, format_files, open_existing, needed_bitmap_blocks,
}
use openfs.Disk.Parsing
use openfs.Disk.Parsing.{label_of, length-label_of}
use openfs.Disk.Loading.{OnDisk, opened, open_existing-OnDisk}
use openfs.Disk.Store.{Represents}
use openfs.Disk.Reopening.{Persisted}

abbrev pub zeros_of : DiskSuperBlock → ℕ
zeros_of sb = 4044 + (sb.bitmap_blocks * 4096 + sb.data_blocks * 4096)

-- Behind the superblock's members and checksum there are zeros alone.
abbrev pub file_of : DiskSuperBlock → List ℕ
file_of sb =
    print_super_block sb
    ++ replicate (sb.bitmap_blocks * 4096) 0
    ++ replicate (sb.data_blocks * 4096) 0

take-replicate : (n : ℕ) (rest : List ℕ) → take n (replicate n 0 ++ rest) ≡ replicate n 0
take-replicate zero rest = refl
take-replicate (suc n) rest = ap (λ (t : List ℕ). 0 ∷ t) (take-replicate n rest)

module _ (sb : DiskSuperBlock) (f : Parsing.Fits sb) where
  abbrev head : List ℕ
  head = label_of sb

  file_of_lem : file_of sb ≡ head ++ replicate (zeros_of sb) 0
  unfolding print_super_block
  file_of_lem =
      let b = sb.bitmap_blocks * 4096 in
      let n = sb.data_blocks * 4096 in
      append_assoc (head ++ replicate 4044 0) (replicate b 0) (replicate n 0)
      ∙ append_assoc head (replicate 4044 0) (replicate b 0 ++ replicate n 0)
      ∙ ap (λ (t : List ℕ). head ++ t)
          (ap (λ (t : List ℕ). replicate 4044 0 ++ t) (replicate-add b n 0)
            ∙ replicate-add 4044 (b + n) 0)

  -- The area of the bitmap holds zeros.
  bitmap_area_zeros :
      take (sb.bitmap_blocks * 4096) (drop 4096 (file_of sb))
      ≡ replicate (sb.bitmap_blocks * 4096) 0
  bitmap_area_zeros =
      let b = sb.bitmap_blocks * 4096 in
      let n = sb.data_blocks * 4096 in
      let split : zeros_of sb ≡ 3988 + (b + (56 + n)) = omega arith in
      let behind : drop 4096 (file_of sb) ≡ replicate (b + (56 + n)) 0 =
        ap (λ (t : List ℕ). drop 4096 t) file_of_lem
        ∙ drop-append 4096 3988 head (replicate (zeros_of sb) 0)
            (omega (arith, length-label_of sb f))
        ∙ ap (λ (k : ℕ). drop 3988 (replicate k 0)) split
        ∙ drop-replicate 3988 (b + (56 + n)) 0 in
      ap (λ (t : List ℕ). take b t) (behind ∙ sym (replicate-add b (56 + n) 0))
      ∙ take-replicate b (replicate (56 + n) 0)

pub format_files-file_of : (sb : DiskSuperBlock) → (format_files sb).disk ≡ some (file_of sb)
unfolding format_files
format_files-file_of sb = refl

-- The superblock of a layout in which the bitmap has a bit for every block of the data, and every
-- area follows the one before.
pub record IsPlan (sb : DiskSuperBlock) : Type 0 where
  pub parsing : Parsing.Fits sb
  pub signed_by : sb.checksum ≡ compute_crc32 (checksummed sb)
  pub covers : needed_bitmap_blocks sb.data_blocks ≤ sb.bitmap_blocks
  pub bitmap_at : sb.bitmap_offset ≡ 4096
  pub data_at : sb.data_offset ≡ 4096 + sb.bitmap_blocks * 4096
  pub small : sb.bitmap_blocks * 4096 < u32_mod

module _ (d : DiskManager) (sb : DiskSuperBlock) (p : IsPlan sb) (capacity : ℕ)
    (room : sb.data_offset + sb.data_blocks * 4096 ≤ capacity) (no_wrap : capacity < u64_mod) where
  abbrev pub n : ℕ
  n = sb.bitmap_blocks * 4096

  abbrev pub zeros : List ℕ
  zeros = replicate n 0

  file-OnDisk : OnDisk sb (file_of sb) zeros
  file-OnDisk =
      let sized : length zeros ≡ n = length-replicate n 0 in
      let begins = file_of_lem sb p.parsing in
      let labelled = length-label_of sb p.parsing in
      record {
        parsing = p.parsing;
        signed_by = p.signed_by;
        label =
            ap (λ (t : List ℕ). take 108 t) begins
            ∙ ap (λ (k : ℕ). take k (label_of sb ++ replicate (zeros_of sb) 0)) (sym labelled)
            ∙ take-length_append (label_of sb) (replicate (zeros_of sb) 0);
        long = omega (
          arith,
          ap (λ (t : List ℕ). length t) begins,
          length-append (label_of sb) (replicate (zeros_of sb) 0),
          length-replicate {A = ℕ} (zeros_of sb) 0,
          labelled,
        );
        bitmap_size = sized;
        small = p.small;
        saved =
            ap (λ (k : ℕ). take k (drop sb.bitmap_offset (file_of sb))) sized
            ∙ ap (λ (k : ℕ). take n (drop k (file_of sb))) p.bitmap_at
            ∙ bitmap_area_zeros sb p.parsing;
      }

  abbrev pub fresh : DiskManager
  fresh = opened (format_files sb) capacity sb (file_of sb) zeros

  data_fits : (sb.data_blocks + 7 < u64_mod) × ((sb.data_blocks + 7) / 8 ≤ n)
  unfolding needed_bitmap_blocks
  data_fits =
      let below : sb.data_blocks + 7 < u64_mod = omega (arith, room, no_wrap, p.data_at) in
      (below, omega (arith, p.covers, below))

  pub fresh-Represents : Represents fresh []
  unfolding Map.find is_normal
  fresh-Represents =
      let (below, covers) = data_fits in
      let (loaded, valid, _) = load-zeros n sb.data_blocks below covers in
      let size : length fresh.bitmap.bitmap ≡ n =
        ap (λ (b : Bitmap.BlockBitmap). length b.bitmap) loaded ∙ length-replicate n 0 in
      let blocks : fresh.bitmap.num_blocks ≡ sb.data_blocks =
        ap (λ (b : Bitmap.BlockBitmap). b.num_blocks) loaded in
      record {
        valid = record {
          bitmap_valid = valid;
          bitmap_area = omega (arith, size, p.bitmap_at, p.data_at);
          bitmap_small = omega (arith, size, p.small);
          room = omega (arith, room, blocks);
          no_wrap = no_wrap;
          opened = refl;
          good = refl;
          running = refl;
        };
        slots = λ o b found. cc;
        apart = λ o p b c found _ _. cc;
      }

  pub fresh-Persisted : Persisted fresh
  fresh-Persisted =
      let (below, covers) = data_fits in
      let (loaded, _, _) = load-zeros n sb.data_blocks below covers in
      let same : fresh.bitmap.bitmap ≡ zeros = ap (λ (b : Bitmap.BlockBitmap). b.bitmap) loaded in
      let o = file-OnDisk in
      record {
        labelled = record {
          parsing = o.parsing;
          signed_by = o.signed_by;
          label = o.label;
          long = o.long;
          bitmap_size = ap (λ (t : List ℕ). length t) same ∙ o.bitmap_size;
          small = o.small;
          counted = ap (λ (b : Bitmap.BlockBitmap). b.num_blocks) loaded;
          behind = omega (arith, p.bitmap_at);
        };
        saved =
            subst (λ (t : List ℕ). take (length t) (drop sb.bitmap_offset (file_of sb)) ≡ t)
              (sym same) o.saved;
      }

  pub open_existing-IsPlan :
      d.io.is_open ≡ false
      → (open_existing d (format_files sb) capacity ≡ (fresh, ok tt))
        × Represents fresh []
        × Persisted fresh
        × (free_blocks fresh.bitmap ≡ sb.data_blocks)
  open_existing-IsPlan closed =
      let (below, covers) = data_fits in
      (
        open_existing-OnDisk d (format_files sb) capacity sb (file_of sb) zeros
            (format_files-file_of sb) file-OnDisk closed,
        fresh-Represents,
        fresh-Persisted,
        (load-zeros n sb.data_blocks below covers).2,
      )
