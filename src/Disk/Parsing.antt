-- ===== src/Disk/Parsing.antt =====
-- The superblock is read back from its bytes, and passes the checks of OpenExisting.
use openfs.Common.{
  ℕ, ◌^◌, ◌<◌, ◌≡◌, List, [], ◌++◌, true, length, take, drop, ◌==◌, eqs_refl, le_bytes, le_value,
  le_value-le_bytes, length-append, length-le_bytes, take-length_append, append_assoc, u64_mod,
  u32_mod, arith, refl, ap, sym, ◌∙◌, subst,
}
use openfs.Crc.{compute_crc32}
use openfs.Disk.{DiskSuperBlock}
use openfs.Disk.Format.{
  checksummed, parse_super_block, field, signed, disk_magic, validate_super_block,
}

-- The members have the widths of their types, and the magic and the constants are those of this
-- format.
pub record Fits (sb : DiskSuperBlock) : Type 0 where
  pub magic_is : sb.magic ≡ disk_magic
  pub version_is : sb.version ≡ 1
  pub block_size_is : sb.block_size ≡ 4096
  pub disk_uuid_fits : sb.disk_uuid < u64_mod
  pub node_id_fits : sb.node_id < u64_mod
  pub disk_index_fits : sb.disk_index < u32_mod
  pub total_blocks_fits : sb.total_blocks < u64_mod
  pub bitmap_offset_fits : sb.bitmap_offset < u64_mod
  pub bitmap_blocks_fits : sb.bitmap_blocks < u64_mod
  pub wal_offset_fits : sb.wal_offset < u64_mod
  pub wal_blocks_fits : sb.wal_blocks < u64_mod
  pub data_offset_fits : sb.data_offset < u64_mod
  pub data_blocks_fits : sb.data_blocks < u64_mod
  pub create_time_fits : sb.create_time < u64_mod
  pub checksum_fits : sb.checksum < u32_mod

-- The members and the checksum, which the file begins with.
abbrev pub label_of : DiskSuperBlock → List ℕ
label_of sb = checksummed sb ++ le_bytes 4 sb.checksum

abbrev of_magic : List ℕ → DiskSuperBlock → DiskSuperBlock
of_magic magic sb = record sb { magic = magic }

marked_length : (sb : DiskSuperBlock) → length (checksummed (of_magic disk_magic sb)) ≡ 104
unfolding checksummed le_bytes
marked_length sb = refl

==_refl : (n : ℕ) → (n == n) ≡ true
==_refl n = ground arith

read_member :
    (raw : List ℕ) (at n x : ℕ)
    → x < 256 ^ n
    → take n (drop at raw) ≡ le_bytes n x
    → field at n raw ≡ x
read_member raw at n x small there = ap le_value there ∙ le_value-le_bytes n x small

validate_parts :
    (raw signed : List ℕ)
    → take 8 raw ≡ disk_magic
    → field 8 2 raw ≡ 1
    → field 36 4 raw ≡ 4096
    → take 104 raw ≡ signed
    → field 104 4 raw ≡ compute_crc32 signed
    → validate_super_block raw ≡ true
unfolding validate_super_block
validate_parts raw signed a b c first k =
    rw (a, b, c, k, first, eqs_refl disk_magic) (==_refl (compute_crc32 signed))

module _ (sb : DiskSuperBlock) (f : Fits sb) (rest : List ℕ) where
  abbrev raw : List ℕ
  raw = label_of (of_magic disk_magic sb) ++ rest

  read_constants :
      (take 8 raw ≡ disk_magic) × (field 8 2 raw ≡ sb.version) × (field 36 4 raw ≡ sb.block_size)
  unfolding checksummed le_bytes
  read_constants = (
    refl,
    read_member raw 8 2 sb.version (omega (arith, f.version_is)) refl,
    read_member raw 36 4 sb.block_size (omega (arith, f.block_size_is)) refl,
  )

  read_ids :
      (field 16 8 raw ≡ sb.disk_uuid)
      × (field 24 8 raw ≡ sb.node_id)
      × (field 32 4 raw ≡ sb.disk_index)
      × (field 96 8 raw ≡ sb.create_time)
      × (field 104 4 raw ≡ sb.checksum)
  unfolding checksummed le_bytes
  read_ids = (
    read_member raw 16 8 sb.disk_uuid f.disk_uuid_fits refl,
    read_member raw 24 8 sb.node_id f.node_id_fits refl,
    read_member raw 32 4 sb.disk_index f.disk_index_fits refl,
    read_member raw 96 8 sb.create_time f.create_time_fits refl,
    read_member raw 104 4 sb.checksum f.checksum_fits refl,
  )

  read_areas :
      (field 40 8 raw ≡ sb.total_blocks)
      × (field 48 8 raw ≡ sb.bitmap_offset)
      × (field 56 8 raw ≡ sb.bitmap_blocks)
      × (field 64 8 raw ≡ sb.wal_offset)
      × (field 72 8 raw ≡ sb.wal_blocks)
      × (field 80 8 raw ≡ sb.data_offset)
      × (field 88 8 raw ≡ sb.data_blocks)
  unfolding checksummed le_bytes
  read_areas = (
    read_member raw 40 8 sb.total_blocks f.total_blocks_fits refl,
    read_member raw 48 8 sb.bitmap_offset f.bitmap_offset_fits refl,
    read_member raw 56 8 sb.bitmap_blocks f.bitmap_blocks_fits refl,
    read_member raw 64 8 sb.wal_offset f.wal_offset_fits refl,
    read_member raw 72 8 sb.wal_blocks f.wal_blocks_fits refl,
    read_member raw 80 8 sb.data_offset f.data_offset_fits refl,
    read_member raw 88 8 sb.data_blocks f.data_blocks_fits refl,
  )

  marked : of_magic disk_magic sb ≡ sb
  marked = ap (λ (t : List ℕ). of_magic t sb) (sym f.magic_is)

  marked_raw : raw ≡ label_of sb ++ rest
  marked_raw = ap (λ (x : DiskSuperBlock). label_of x ++ rest) marked

  length-checksummed : length (checksummed sb) ≡ 104
  length-checksummed =
      ap (λ (x : DiskSuperBlock). length (checksummed x)) (sym marked) ∙ marked_length sb

  -- The superblock that is read back is the one that was written, whatever follows.
  pub parse_super_block-label_of : parse_super_block (label_of sb ++ rest) ≡ sb
  unfolding parse_super_block
  parse_super_block-label_of =
      let (a, b, c) = read_constants in
      let (g, h, i, j, k) = read_ids in
      let (n, o, p, q, r, s, t) = read_areas in
      let same : parse_super_block raw ≡ of_magic disk_magic sb =
        rw (a, b, c, g, h, i, j, k, n, o, p, q, r, s, t) refl in
      ap (λ (x : List ℕ). parse_super_block x) (sym marked_raw) ∙ same ∙ marked

  signed_part : take 104 (label_of sb ++ rest) ≡ checksummed sb
  signed_part =
      let head = checksummed sb in
      ap (λ (t : List ℕ). take 104 t) (append_assoc head (le_bytes 4 sb.checksum) rest)
      ∙ ap (λ (n : ℕ). take n (head ++ (le_bytes 4 sb.checksum ++ rest))) (sym length-checksummed)
      ∙ take-length_append head (le_bytes 4 sb.checksum ++ rest)

  pub validate_super_block-label_of :
      sb.checksum ≡ compute_crc32 (checksummed sb)
      → validate_super_block (label_of sb ++ rest) ≡ true
  validate_super_block-label_of signed_by =
      let (a, b, c) = read_constants in
      let (_, _, _, _, k) = read_ids in
      subst (λ (t : List ℕ). validate_super_block t ≡ true) marked_raw
        (validate_parts raw (checksummed sb) a (b ∙ f.version_is) (c ∙ f.block_size_is)
          (ap (λ (t : List ℕ). take 104 t) marked_raw ∙ signed_part) (k ∙ signed_by))

pub length-label_of : (sb : DiskSuperBlock) → Fits sb → length (label_of sb) ≡ 108
length-label_of sb f = omega (
  arith,
  length-append (checksummed sb) (le_bytes 4 sb.checksum),
  length-le_bytes 4 sb.checksum,
  length-checksummed sb f [],
)
