-- ===== src/Disk/Layout.antt =====
-- The bytes of a block on the disk, and reading them back.
use openfs.Common.{
  ℕ, ◌+◌, ◌/◌, ◌%◌, ◌^◌, ◌<◌, ◌≡◌, List, [], ◌++◌, true, ltb, length, take, drop, u32_mod, u64_mod,
  le_bytes, le_value, le_value-le_bytes, arith, refl, sym, subst, Bool-cases, inl, inr, [], ◌∷◌,
}
use openfs.Types.{BlkLevel, ok}
use openfs.Device.Laws.{Holds, Holds-append, read_device-Holds}
use openfs.Disk.{
  DiskManager, DiskBlock, calc_physical_blocks, disk_block_header, disk_block_magic, read_payload,
  read_block,
}

-- A block as it is given to WriteBlock.
pub record Block : Type 0 where
  pub level : BlkLevel
  pub content : DiskBlock

abbrev pub size_of : Block → ℕ
size_of b = length b.content.payload

-- The numbers fit their types, and the size does not wrap when it is rounded up to blocks.
pub record Fits (b : Block) : Type 0 where
  pub id_fits : b.content.block_id < 2 ^ 64
  pub crc_fits : b.content.crc32 < 2 ^ 32
  pub size_fits : size_of b + 4127 < u32_mod

abbrev pub block_bytes : Block → List ℕ
block_bytes b =
    disk_block_header b.content.block_id b.level (size_of b) b.content.crc32 ++ b.content.payload

pub length-disk_block_header :
    (block_id : ℕ) (level : BlkLevel) (size crc32 : ℕ)
    → length (disk_block_header block_id level size crc32) ≡ 32
unfolding disk_block_header le_bytes
length-disk_block_header block_id level size crc32 = refl

pub calc_physical_blocks_lem :
    (size : ℕ) → size + 4127 < u32_mod → calc_physical_blocks size ≡ (size + 4127) / 4096
unfolding calc_physical_blocks
calc_physical_blocks_lem size small = omega (arith, small)

module _ (block_id : ℕ) (level : BlkLevel) (size crc32 : ℕ) (id_fits : block_id < 2 ^ 64)
    (size_fits : size < 2 ^ 32) (crc_fits : crc32 < 2 ^ 32) where
  header_magic : le_value (take 4 (disk_block_header block_id level size crc32)) ≡ disk_block_magic
  unfolding disk_block_header le_bytes le_value
  header_magic = refl

  header_id : le_value (take 8 (drop 8 (disk_block_header block_id level size crc32))) ≡ block_id
  unfolding disk_block_header le_bytes
  header_id = unfold le_bytes in le_value-le_bytes 8 block_id id_fits

  header_size : le_value (take 4 (drop 20 (disk_block_header block_id level size crc32))) ≡ size
  unfolding disk_block_header le_bytes
  header_size = unfold le_bytes in le_value-le_bytes 4 size size_fits

  header_crc : le_value (take 4 (drop 24 (disk_block_header block_id level size crc32))) ≡ crc32
  unfolding disk_block_header le_bytes
  header_crc = unfold le_bytes in le_value-le_bytes 4 crc32 crc_fits

length_zero : (xs : List ℕ) → length xs ≡ 0 → xs ≡ []
length_zero [] e = refl
length_zero (x ∷ xs) e = absurd (omega (arith, e))

module _ (d : DiskManager) (offset : ℕ) (b : Block) (fits : Fits b)
    (no_wrap : offset + 32 < u64_mod) (opened : d.io.is_open ≡ true) (good : d.io.is_good ≡ true)
    (held : Holds d.io offset (block_bytes b)) where
  abbrev header : List ℕ
  header = disk_block_header b.content.block_id b.level (size_of b) b.content.crc32

  -- The data behind the header.
  payload_held : Holds d.io (offset + 32) b.content.payload
  payload_held =
      let sized = length-disk_block_header b.content.block_id b.level (size_of b) b.content.crc32 in
      subst (λ (n : ℕ). Holds d.io (offset + n) b.content.payload) sized
        (Holds-append d.io offset header b.content.payload held).1

  read_payload-Holds : read_payload d.io offset header ≡ (d.io, ok b.content)
  unfolding read_payload
  read_payload-Holds =
      let small : size_of b < 2 ^ 32 = omega (arith, fits.size_fits) in
      let m =
        header_magic b.content.block_id b.level (size_of b) b.content.crc32 fits.id_fits small
          fits.crc_fits in
      let i =
        header_id b.content.block_id b.level (size_of b) b.content.crc32 fits.id_fits small
          fits.crc_fits in
      let s =
        header_size b.content.block_id b.level (size_of b) b.content.crc32 fits.id_fits small
          fits.crc_fits in
      let c =
        header_crc b.content.block_id b.level (size_of b) b.content.crc32 fits.id_fits small
          fits.crc_fits in
      let at : (offset + 32) % u64_mod ≡ offset + 32 = omega (arith, no_wrap) in
      let r =
        read_device-Holds d.io (offset + 32) (size_of b) b.content.payload opened good refl
          payload_held in
      elim (Bool-cases (ltb 0 (size_of b))) [
        | inl some_data ↦ ground (arith, m, i, s, c, at, r, some_data)
        | inr no_data ↦
            let empty : b.content.payload ≡ [] =
              length_zero b.content.payload (ground (arith, no_data)) in
            ground (arith, m, i, s, c, no_data, empty)
      ]

  -- A disk that holds the bytes of a block reads the block back.
  pub read_block-Holds : read_block d offset ≡ (d, ok b.content)
  unfolding read_block
  read_block-Holds =
      let sized = length-disk_block_header b.content.block_id b.level (size_of b) b.content.crc32 in
      let first = (Holds-append d.io offset header b.content.payload held).0 in
      let r = read_device-Holds d.io offset 32 header opened good (sym sized) first in
      ground (arith, r, read_payload-Holds)
