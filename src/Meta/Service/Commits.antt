-- ===== src/Meta/Service/Commits.antt =====
-- src/meta/meta_service_impl.cpp: the path of a file's blocks from AllocateBlocks over CommitBlocks
-- to GetBlockLocations, and what the commit does to the file's inode.
use openfs.Common.{
  ℕ, List, [], ◌∷◌, ◌++◌, ◌≡◌, ◌≢◌, ◌+◌, ◌%◌, ◌<◌, ap, refl, sym, ◌∙◌, subst, none, some, map, true,
  inl, inr, arith, All, length, u64_mod,
}
use openfs.Common.Map
use openfs.Common.Map.{Map, find-put, find-put_self}
use openfs.Types.{Inode, BlockMeta, BlkLevel, Result-cases, ok}
use openfs.Meta.InodeTable
use openfs.Meta.Namespace.Consistency.{IsConsistent, Consistent}
use openfs.Meta.Namespace.Consistency
use openfs.Meta.BlockMap.{add_blocks, block_id_of, ids_of, collect}
use openfs.Meta.BlockMap.Laws.{
  NewBlocks, IsComplete, get_blocks-add_blocks, get_blocks-add_blocks_ne,
}
use openfs.Meta.NodeManager
use openfs.Meta.NodeManager.{has_online_nodes, get_any_online_node}
use openfs.Meta.Allocator.{allocate-Numbered, Numbered-NewBlocks}
use openfs.Meta.Service.{
  MetaService, commit_blocks, get_block_locations, allocate_blocks, total_size,
}

-- What the blocks hold together.
abbrev pub sizes : List BlockMeta → ℕ
sizes [] = 0
sizes (b ∷ blocks) = b.size + sizes blocks

total_size_lem :
    (total : ℕ) (blocks : List BlockMeta)
    → total < u64_mod
    → total_size total blocks ≡ (total + sizes blocks) % u64_mod
unfolding total_size
total_size_lem total [] small = omega (arith, small)
total_size_lem total (b ∷ blocks) small =
    omega (arith, total_size_lem ((total + b.size) % u64_mod) blocks (omega arith))

module _ (s : MetaService) (inode_id : ℕ) (blocks : List BlockMeta) (mtime ctime : ℕ) where
  abbrev after : MetaService
  after = (commit_blocks s inode_id blocks mtime ctime).0

  -- The inode that a commit writes.
  abbrev pub committed : Inode → Inode
  committed i = record i { size = total_size 0 blocks; mtime_ns = mtime; ctime_ns = ctime }

  commit-block_map : after.block_map ≡ (add_blocks s.block_map inode_id blocks).0
  unfolding commit_blocks add_blocks
  commit-block_map = elim (Result-cases (InodeTable.get s.namespace_mgr.inode_table inode_id)) [
    | inl (e, failed) ↦ rw (after, failed, commit_blocks)
    | inr (i, found) ↦ rw (after, found, commit_blocks)
  ]

  commit-ok : (commit_blocks s inode_id blocks mtime ctime).1 ≡ ok tt
  unfolding commit_blocks add_blocks
  commit-ok = elim (Result-cases (InodeTable.get s.namespace_mgr.inode_table inode_id)) [
    | inl (e, failed) ↦ ground (arith, failed)
    | inr (i, found) ↦ ground (arith, found)
  ]

  commit-missing :
      Map.find inode_id s.namespace_mgr.inode_table.inodes ≡ none
      → after.namespace_mgr ≡ s.namespace_mgr
  unfolding commit_blocks add_blocks InodeTable.get
  commit-missing missing = ground (arith, missing)

  commit-present :
      (i : Inode)
      → Map.find inode_id s.namespace_mgr.inode_table.inodes ≡ some i
      → i.inode_id ≡ inode_id
      → after.namespace_mgr ≡ record s.namespace_mgr {
        inode_table = record s.namespace_mgr.inode_table {
          inodes = Map.put inode_id (committed i) s.namespace_mgr.inode_table.inodes;
        };
      }
  unfolding commit_blocks add_blocks InodeTable.get InodeTable.update
  commit-present i present own = ground (arith, present, own)

  -- What the commit does to the inode, in the words of the code.
  pub commit_blocks-committed :
      (i : Inode)
      → IsConsistent s.namespace_mgr
      → InodeTable.get s.namespace_mgr.inode_table inode_id ≡ ok i
      → (InodeTable.get after.namespace_mgr.inode_table inode_id ≡ ok (committed i))
        × ((k : ℕ)
            → inode_id ≢ k
            → InodeTable.get after.namespace_mgr.inode_table k
              ≡ InodeTable.get s.namespace_mgr.inode_table k)
        × (after.namespace_mgr.dir_entries ≡ s.namespace_mgr.dir_entries)
        × IsConsistent after.namespace_mgr
  unfolding InodeTable.get
  commit_blocks-committed i c found =
      let present : Map.find inode_id s.namespace_mgr.inode_table.inodes ≡ some i =
        ground (arith, found) in
      let own = c.own_id inode_id i present in
      let inodes = s.namespace_mgr.inode_table.inodes in
      rw (commit-present i present own) (
        ground (arith, find-put_self inode_id (committed i) inodes),
        (λ k ne. ground (arith, find-put k inode_id (committed i) inodes, ne)),
        refl,
        subst
            (λ (n : ℕ).
              Consistent s.namespace_mgr.dir_entries (Map.put n (committed i) inodes)
                s.namespace_mgr.inode_table.next_inode_id)
            own
            (Consistency.refresh_inode c i (committed i)
              (subst (λ (n : ℕ). Map.find n inodes ≡ some i) (sym own) present) refl refl refl
              refl),
      )

  -- In a consistent namespace, a commit for an inode that exists succeeds and sets its size, to
  -- the sum of the sizes of the committed blocks alone, modulo 2^64, and its times; it changes no
  -- other inode and no directory, and the namespace stays consistent.
  pub commit_blocks-inode :
      (i : Inode)
      → IsConsistent s.namespace_mgr
      → InodeTable.get s.namespace_mgr.inode_table inode_id ≡ ok i
      → ((commit_blocks s inode_id blocks mtime ctime).1 ≡ ok tt)
        × (InodeTable.get after.namespace_mgr.inode_table inode_id
            ≡ ok (record i { size = sizes blocks % u64_mod; mtime_ns = mtime; ctime_ns = ctime }))
        × ((k : ℕ)
            → inode_id ≢ k
            → InodeTable.get after.namespace_mgr.inode_table k
              ≡ InodeTable.get s.namespace_mgr.inode_table k)
        × (after.namespace_mgr.dir_entries ≡ s.namespace_mgr.dir_entries)
        × IsConsistent after.namespace_mgr
  commit_blocks-inode i c found =
      let (here, others, dirs, consistent) = commit_blocks-committed i c found in
      let total : total_size 0 blocks ≡ sizes blocks % u64_mod =
        omega (arith, total_size_lem 0 blocks (omega arith)) in
      (
        commit-ok,
        here
            ∙ ap
                (λ (n : ℕ).
                  let j : Inode = record i { size = n; mtime_ns = mtime; ctime_ns = ctime } in ok j)
                total,
        others,
        dirs,
        consistent,
      )

  -- When every block that the map lists has its metadata, a commit of new blocks appends them to
  -- the blocks of its file, in their order, and leaves the blocks of every other file as they
  -- were.
  pub commit_blocks-get_block_locations :
      IsComplete s.block_map
      → NewBlocks s.block_map.block_metas blocks
      → (get_block_locations after inode_id
          ≡ ok (
              collect (ids_of inode_id s.block_map.inode_blocks) s.block_map.block_metas ++ blocks))
        × ((other : ℕ)
            → inode_id ≢ other
            → get_block_locations after other ≡ get_block_locations s other)
  unfolding get_block_locations
  commit_blocks-get_block_locations complete new = rw (commit-block_map) (
    get_blocks-add_blocks s.block_map complete blocks new inode_id,
    λ other ne. (get_blocks-add_blocks_ne s.block_map complete blocks new inode_id other ne),
  )

head_id : {b c : ℕ} {bs cs : List ℕ} → b ∷ bs ≡ c ∷ cs → b ≡ c
head_id e = cc e

tail_ids : {b c : ℕ} {bs cs : List ℕ} → b ∷ bs ≡ c ∷ cs → bs ≡ cs
tail_ids e = cc e

others-same_ids :
    (k : ℕ) (blocks filled : List BlockMeta)
    → map block_id_of filled ≡ map block_id_of blocks
    → All (λ (c : BlockMeta). c.block_id ≢ k) blocks
    → All (λ (c : BlockMeta). c.block_id ≢ k) filled
others-same_ids k blocks [] same ne = tt
others-same_ids k [] (f ∷ filled) same ne = cc same
others-same_ids k (b ∷ blocks) (f ∷ filled) same ne =
    ((λ e. ne.0 (sym (head_id same) ∙ e)), others-same_ids k blocks filled (tail_ids same) ne.1)

-- Only the ids matter for blocks to be new.
NewBlocks-same_ids :
    (metas : Map BlockMeta) (blocks filled : List BlockMeta)
    → map block_id_of filled ≡ map block_id_of blocks
    → NewBlocks metas blocks
    → NewBlocks metas filled
NewBlocks-same_ids metas blocks [] same new = tt
NewBlocks-same_ids metas [] (f ∷ filled) same new = cc same
NewBlocks-same_ids metas (b ∷ blocks) (f ∷ filled) same new = (
  subst (λ (k : ℕ). Map.find k metas ≡ none) (sym (head_id same)) new.0,
  subst (λ (k : ℕ). All (λ (c : BlockMeta). c.block_id ≢ k) filled) (sym (head_id same))
      (others-same_ids b.block_id blocks filled (tail_ids same) new.1),
  NewBlocks-same_ids metas blocks filled (tail_ids same) new.2,
)

-- The state of the block map and the allocator between requests.
pub record IsValid (s : MetaService) : Type 0 where
  pub nodes : NodeManager.IsValid s.node_mgr
  pub complete : IsComplete s.block_map
  pub ids_below :
      (id : ℕ) (b : BlockMeta)
      → Map.find id s.block_map.block_metas ≡ some b
      → id < s.block_allocator.next_block_id

-- While a data node is online and the block ids do not wrap, in a state whose node ids are
-- positive, whose listed blocks all have metadata and whose block ids are below the next one,
-- AllocateBlocks gives the number of blocks asked for, and after the client commits them for a
-- file without blocks, under the ids that it was given, GetBlockLocations returns what was
-- committed, in that order.
pub get_block_locations-commit_blocks-allocate_blocks :
    (s : MetaService) (inode_id count : ℕ) (level : BlkLevel) (clock : ℕ → ℕ)
    → IsValid s
    → has_online_nodes s.node_mgr ≡ true
    → s.block_allocator.next_block_id + count < u64_mod
    → Map.find inode_id s.block_map.inode_blocks ≡ none
    → (blocks : List BlockMeta) × ((allocate_blocks s count level clock).1 ≡ ok blocks)
      × (length blocks ≡ count)
      × ((filled : List BlockMeta) (mtime ctime : ℕ)
          → map block_id_of filled ≡ map block_id_of blocks
          → get_block_locations
              (commit_blocks (allocate_blocks s count level clock).0 inode_id filled mtime ctime).0
              inode_id
            ≡ ok filled)
unfolding allocate_blocks collect
get_block_locations-commit_blocks-allocate_blocks s inode_id count level clock v online room fresh =
    let (blocks, given, total, numbered) =
      allocate-Numbered s.block_allocator s.node_mgr count level clock v.nodes online room in
    (
      blocks,
      rw given refl,
      total,
      λ filled mtime ctime same.
          let new = NewBlocks-same_ids s.block_map.block_metas blocks filled same (
            Numbered-NewBlocks s.block_allocator.next_block_id level
              (get_any_online_node s.node_mgr) blocks s.block_map.block_metas v.ids_below
              numbered) in
          let (here, _) =
            commit_blocks-get_block_locations (allocate_blocks s count level clock).0 inode_id
              filled mtime ctime v.complete new in
          here ∙ rw (fresh, collect) refl,
    )
