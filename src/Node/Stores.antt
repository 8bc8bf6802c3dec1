-- ===== src/Node/Stores.antt =====
-- What the disks of a node store, and what a write to the pool adds to it.
use openfs.Common.{
  ℕ, zero, suc, ◌≤◌, ◌≡◌, ◌⊎◌, inl, inr, List, [], ◌∷◌, some, get_elem?, set, arith, refl, sym,
  subst, Option-cases, length, length-set, u32_mod,
}
use openfs.Common.Map
use openfs.Common.Map.{Map, find-put}
use openfs.Types.{BlkLevel, Result, Status, no_space, Result-cases, ok, err}
use openfs.Disk
use openfs.Disk.{DiskManager, DiskBlock}
use openfs.Disk.Layout.{Block, Fits}
use openfs.Disk.Store.{Represents}
use openfs.Disk.Writing.{store, store-Represents}
use openfs.Node.{DataNode, select_disk, write_to_pool}

-- The blocks that each disk stores, disk by disk.
unfoldable pub Stores : List DiskManager → List (Map Block) → Type 0
Stores [] [] = Unit
Stores [] (m ∷ stores) = ⊥
Stores (d ∷ disks) [] = ⊥
Stores (d ∷ disks) (m ∷ stores) = Represents d m × Stores disks stores

-- Disk `i` stores the block at the offset.
unfoldable pub Stands : List (Map Block) → ℕ → ℕ → Block → Type 0
Stands [] i offset b = ⊥
Stands (m ∷ stores) zero offset b = Map.find offset m ≡ some b
Stands (m ∷ stores) (suc i) offset b = Stands stores i offset b

-- Every block that stands in the first stands in the second.
abbrev pub Extends : List (Map Block) → List (Map Block) → Type 0
Extends old new = (i offset : ℕ) (b : Block) → Stands old i offset b → Stands new i offset b

-- What a write of one block to one disk does to what the disks store.
abbrev pub Stored : List DiskManager → List (Map Block) → ℕ → Block → Result ℕ → Type 0
Stored disks stores i b r =
    (new : List (Map Block)) × Stores disks new
    × Extends stores new
    × ((offset : ℕ) → r ≡ ok offset → Stands new i offset b)

Extends-head :
    (m m' : Map Block) (stores : List (Map Block))
    → ((offset : ℕ) (b : Block) → Map.find offset m ≡ some b → Map.find offset m' ≡ some b)
    → Extends (m ∷ stores) (m' ∷ stores)
unfolding Stands
Extends-head m m' stores grow zero offset b h = grow offset b h
Extends-head m m' stores grow (suc i) offset b h = h

Extends-tail :
    (m : Map Block) (old new : List (Map Block)) → Extends old new → Extends (m ∷ old) (m ∷ new)
unfolding Stands
Extends-tail m old new grow zero offset b h = h
Extends-tail m old new grow (suc i) offset b h = grow i offset b h

-- A write to a disk, stored or not, keeps what the disk stores.
store-keeps :
    (d : DiskManager) (m : Map Block) (b : Block)
    → Represents d m
    → Fits b
    → (new : Map Block) × Represents (store d b).0 new
      × ((o : ℕ) (c : Block) → Map.find o m ≡ some c → Map.find o new ≡ some c)
      × ((o : ℕ) → (store d b).1 ≡ ok o → Map.find o new ≡ some b)
store-keeps d m b r fits = elim (store-Represents d m b r fits) [
  | inl (full, _) ↦ (
    m,
    subst (λ (x : DiskManager × Result ℕ). Represents x.0 m) (sym full) r,
    λ o c h. h,
    λ o done. cc,
  )
  | inr (o, done, fresh, after) ↦ (
    Map.put o b m,
    after,
    λ p c h. ground (arith, find-put p o b m, fresh, h),
    λ p again. ground (arith, find-put p o b m, done, again),
  )
]

pub store-Stored :
    (disks : List DiskManager) (stores : List (Map Block)) (i : ℕ) (d : DiskManager) (b : Block)
    → Stores disks stores
    → get_elem? disks i ≡ some d
    → Fits b
    → Stored (set disks i (store d b).0) stores i b (store d b).1
unfolding Stores Stands
store-Stored [] stores i d b s there fits = cc
store-Stored (e ∷ disks) [] i d b s there fits = absurd s
store-Stored (e ∷ disks) (m ∷ stores) zero d b (r, s) there fits =
    let same : e ≡ d = cc in
    let (new, r', grows, put) =
      store-keeps d m b (subst (λ (x : DiskManager). Represents x m) same r) fits in
    (new ∷ stores, (r', s), Extends-head m new stores grows, put)
store-Stored (e ∷ disks) (m ∷ stores) (suc i) d b (r, s) there fits =
    let (new, s', grows, put) = store-Stored disks stores i d b s there fits in
    (m ∷ new, (r, s'), Extends-tail m stores new grows, put)

-- What a node stores, when its disks can be numbered with 32 bits.
pub record Keeps (n : DataNode) (stores : List (Map Block)) : Type 0 where
  pub disks : Stores n.disks stores
  pub few : length n.disks ≤ u32_mod

-- What a request leaves: all that was stored, and the block at the place that was answered.
abbrev pub Answered : DataNode × Result (ℕ × ℕ) → List (Map Block) → Block → Type 0
Answered (n, r) stores b =
    (new : List (Map Block)) × Keeps n new
    × Extends stores new
    × ((i offset : ℕ) → r ≡ ok (i, offset) → Stands new i offset b)

-- The answer of the pool from that of the disk.
abbrev placed : ℕ → Result ℕ → Result (ℕ × ℕ)
placed i (err s) = err s
placed i (ok offset) = ok (i, offset)

placed_ok :
    (i j offset : ℕ) (r : Result ℕ) → placed i r ≡ ok (j, offset) → (i ≡ j) × (r ≡ ok offset)
placed_ok i j offset (err s) e = cc
placed_ok i j offset (ok o) e = (ground (arith, e), ground (arith, e))

write_to_pool_lem :
    (disks : List DiskManager) (block_id : ℕ) (level : BlkLevel) (payload : List ℕ) (crc32 : ℕ)
    → ((s : Status) × (write_to_pool disks block_id level payload crc32 ≡ (disks, err s)))
      ⊎ ((i : ℕ) × (d : DiskManager) × (get_elem? disks i ≡ some d)
          × (write_to_pool disks block_id level payload crc32 ≡ (
            set disks i (Disk.write_block d block_id level payload crc32).0,
            placed i (Disk.write_block d block_id level payload crc32).1,
          )))
unfolding write_to_pool
write_to_pool_lem disks block_id level payload crc32 = elim (Option-cases (select_disk disks)) [
  | inl none_found ↦ inl (no_space, ground (arith, none_found))
  | inr (i, chosen) ↦ elim (Option-cases (get_elem? disks i)) [
    | inl missing ↦ inl (no_space, ground (arith, chosen, missing))
    | inr (d, there) ↦ inr (
      i,
      d,
      there,
      elim (Result-cases (Disk.write_block d block_id level payload crc32).1) [
        | inl (s, failed) ↦ ground (arith, chosen, there, failed)
        | inr (o, done) ↦ ground (arith, chosen, there, done)
      ],
    )
  ]
]

abbrev pub PoolAnswered :
    List DiskManager → List (Map Block) → Block → List DiskManager × Result (ℕ × ℕ) → Type 0
PoolAnswered disks stores b (disks', r) =
    (new : List (Map Block)) × Stores disks' new
    × (length disks' ≡ length disks)
    × Extends stores new
    × ((i offset : ℕ) → r ≡ ok (i, offset) → Stands new i offset b)

abbrev pub pool_write : List DiskManager → Block → List DiskManager × Result (ℕ × ℕ)
pool_write disks b =
    write_to_pool disks b.content.block_id b.level b.content.payload b.content.crc32

pub pool_write-PoolAnswered :
    (disks : List DiskManager) (stores : List (Map Block)) (b : Block)
    → Stores disks stores
    → Fits b
    → PoolAnswered disks stores b (pool_write disks b)
pool_write-PoolAnswered disks stores b s fits =
    elim (write_to_pool_lem disks b.content.block_id b.level b.content.payload b.content.crc32) [
      | inl (x, failed) ↦
          subst (PoolAnswered disks stores b) (sym failed)
            (stores, s, refl, λ i o c h. h, λ i o e. cc)
      | inr (i, d, there, wrote) ↦
          let (new, s', grows, put) = store-Stored disks stores i d b s there fits in
          subst (PoolAnswered disks stores b) (sym wrote) (
            new,
            s',
            length-set disks i (store d b).0,
            grows,
            λ j o e.
                let (same, done) = placed_ok i j o (store d b).1 e in
                subst (λ (x : ℕ). Stands new x o b) same (put o done),
          )
    ]
