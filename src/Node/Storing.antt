-- ===== src/Node/Storing.antt =====
-- What the disks of a node store: a block that the service accepts stays readable.
use openfs.Common.{
  ℕ, zero, suc, ◌+◌, ◌%◌, ◌<◌, ◌≡◌, ◌⊎◌, inl, inr, List, [], ◌∷◌, some, ◌==◌, get_elem?, arith,
  refl, ap, sym, ◌∙◌, subst, Bool-cases, length, set-get_elem?, u32_mod, u64_mod,
}
use openfs.Common.Map.{Map}
use openfs.Types.{Result, Status, Result-cases, ok, err, select_block_level}
use openfs.Crc.{compute_crc32}
use openfs.Crc.Laws.{compute_crc32_lt}
use openfs.Disk
use openfs.Disk.{DiskManager, DiskBlock}
use openfs.Disk.Layout.{Block, Fits}
use openfs.Disk.Refinement.{read_block-Represents}
use openfs.Node.{DataNode, read_from_pool, write_block, read_block, serve_write, serve_read}
use openfs.Node.Stores.{Stores, Stands, Keeps, Answered, pool_write, pool_write-PoolAnswered}

module _ (n : DataNode) (stores : List (Map Block)) (k : Keeps n stores) (b : Block)
    (fits : Fits b) where
  abbrev node_write : DataNode × Result (ℕ × ℕ)
  node_write = write_block n b.content.block_id b.level b.content.payload b.content.crc32

  write_block_failed :
      (x : Status)
      → (pool_write n.disks b).1 ≡ err x
      → node_write ≡ (record n { disks = (pool_write n.disks b).0 }, err x)
  unfolding write_block
  write_block_failed x failed = ground (arith, failed)

  write_block_done :
      (i offset : ℕ)
      → (pool_write n.disks b).1 ≡ ok (i, offset)
      → (node_write.0.disks ≡ (pool_write n.disks b).0) × (node_write.1 ≡ ok (i, offset))
  unfolding write_block
  write_block_done i offset done = (ground (arith, done), ground (arith, done))

  write_block-Answered : Answered node_write stores b
  write_block-Answered =
      let (new, s, size, grows, put) = pool_write-PoolAnswered n.disks stores b k.disks fits in
      elim (Result-cases (pool_write n.disks b).1) [
        | inl (x, failed) ↦
            subst (λ (p : DataNode × Result (ℕ × ℕ)). Answered p stores b)
              (sym (write_block_failed x failed))
              (new, record { disks = s; few = omega (arith, size, k.few) }, grows, λ i o e. cc)
        | inr ((j, o), done) ↦
            let (same, answer) = write_block_done j o done in
            (
              new,
              record {
                disks = subst (λ (ds : List DiskManager). Stores ds new) (sym same) s;
                few = omega (arith, ap (λ (ds : List DiskManager). length ds) same, size, k.few);
              },
              grows,
              λ i offset e. put i offset (done ∙ sym answer ∙ e),
            )
      ]

-- What a disk of the node stores is read back.
Stands-read :
    (disks : List DiskManager) (stores : List (Map Block)) (i offset : ℕ) (b : Block)
    → Stores disks stores
    → Stands stores i offset b
    → (d : DiskManager) × (get_elem? disks i ≡ some d)
      × (Disk.read_block d offset ≡ (d, ok b.content))
      × (i < length disks)
unfolding Stores Stands
Stands-read [] [] i offset b s h = absurd h
Stands-read [] (m ∷ stores) i offset b s h = absurd s
Stands-read (d ∷ disks) [] i offset b s h = absurd h
Stands-read (d ∷ disks) (m ∷ stores) zero offset b (r, s) h =
    (d, refl, read_block-Represents d m offset b r h, omega arith)
Stands-read (d ∷ disks) (m ∷ stores) (suc i) offset b (r, s) h =
    let (d', there, e, below) = Stands-read disks stores i offset b s h in
    (d', there, e, omega (arith, below))

read_from_pool-Stands :
    (disks : List DiskManager) (stores : List (Map Block)) (i offset : ℕ) (b : Block)
    → Stores disks stores
    → Stands stores i offset b
    → read_from_pool disks i offset ≡ (disks, ok b.content)
unfolding read_from_pool
read_from_pool-Stands disks stores i offset b s h =
    let (d, there, e, _) = Stands-read disks stores i offset b s h in
    let kept = set-get_elem? disks i d there in ground (arith, there, e, kept)

-- Reading, through the service, what a disk of the node stores.
pub serve_read-Stands :
    (n : DataNode) (stores : List (Map Block)) (i offset : ℕ) (b : Block)
    → Keeps n stores
    → Stands stores i offset b
    → serve_read n i offset ≡ (n, ok (b.content.payload, b.content.crc32))
unfolding serve_read read_block
serve_read-Stands n stores i offset b k h =
    let (d, _, _, below) = Stands-read n.disks stores i offset b k.disks h in
    let small : i % u32_mod ≡ i = omega (arith, below, k.few) in
    let e = read_from_pool-Stands n.disks stores i offset b k.disks h in ground (arith, small, e)

-- The block that the service makes of a request.
abbrev pub block_of : ℕ → List ℕ → ℕ → Block
block_of block_id payload crc32 = record {
  level = select_block_level (length payload);
  content = record { payload = payload; crc32 = crc32; block_id = block_id };
}

pub serve_write-Answered :
    (n : DataNode) (stores : List (Map Block)) (block_id : ℕ) (payload : List ℕ) (crc32 : ℕ)
    → Keeps n stores
    → block_id < u64_mod
    → length payload + 4127 < u32_mod
    → Answered (serve_write n block_id payload crc32) stores (block_of block_id payload crc32)
unfolding serve_write
serve_write-Answered n stores block_id payload crc32 k id_fits size_fits =
    elim (Bool-cases (compute_crc32 payload == crc32)) [
      | inr differs ↦ rw differs (stores, k, λ i o c h. h, λ i o e. cc)
      | inl same ↦
          let crc_fits : crc32 < u32_mod = ground (arith, compute_crc32_lt payload, same) in
          rw same (
            write_block-Answered n stores k (block_of block_id payload crc32)
              (record { id_fits = id_fits; crc_fits = crc_fits; size_fits = size_fits }))
    ]

-- Whatever block of less than 2^32 - 4127 bytes a valid data node is asked to write, it fails, or
-- answers a place where the block can then be read with its checksum; every block that its disks
-- store, one that was written and not deleted, can still be read where it stands.
pub serve_read-serve_write :
    (n : DataNode) (stores : List (Map Block)) (block_id : ℕ) (payload : List ℕ) (crc32 : ℕ)
    → Keeps n stores
    → block_id < u64_mod
    → length payload + 4127 < u32_mod
    → let n' = (serve_write n block_id payload crc32).0 in
      (((s : Status) × ((serve_write n block_id payload crc32).1 ≡ err s))
        ⊎ ((i : ℕ) × (offset : ℕ) × ((serve_write n block_id payload crc32).1 ≡ ok (i, offset))
            × ((serve_read n' i offset).1 ≡ ok (payload, crc32))))
      × ((i offset : ℕ) (b : Block)
          → Stands stores i offset b
          → (serve_read n' i offset).1 ≡ ok (b.content.payload, b.content.crc32))
serve_read-serve_write n stores block_id payload crc32 k id_fits size_fits =
    let (new, k', grows, put) =
      serve_write-Answered n stores block_id payload crc32 k id_fits size_fits in
    let n' = (serve_write n block_id payload crc32).0 in
    (
      elim (Result-cases (serve_write n block_id payload crc32).1) [
        | inl refused ↦ inl refused
        | inr ((i, offset), e) ↦ inr (
          i,
          offset,
          e,
          ap (λ (x : DataNode × Result (List ℕ × ℕ)). x.1)
              (serve_read-Stands n' new i offset (block_of block_id payload crc32) k'
                (put i offset e)),
        )
      ],
      λ i offset b h.
          ap (λ (x : DataNode × Result (List ℕ × ℕ)). x.1)
            (serve_read-Stands n' new i offset b k' (grows i offset b h)),
    )
