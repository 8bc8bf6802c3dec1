-- ===== src/Meta/Service/Files.antt =====
-- src/meta/meta_service_impl.cpp: a file from CreateFile over AllocateBlocks and CommitBlocks to
-- GetFileInfo and GetBlockLocations.
use openfs.Common.{
  ℕ, List, [], ◌∷◌, ◌≡◌, ◌+◌, ◌≤◌, ◌<◌, ap, ◌∙◌, subst, none, map, true, false, inl, inr, arith,
  All, length, u64_mod, Bool-cases,
}
use openfs.Common.Map
use openfs.Types.{Name, Inode, BlockMeta, BlkLevel, ok}
use openfs.Meta.Path.{is_root}
use openfs.Meta.Namespace.{Owner}
use openfs.Meta.Namespace.Consistency.{IsConsistent}
use openfs.Meta.Namespace.Preservation.{HasRoom, create_file-IsConsistent}
use openfs.Meta.Namespace.Creation.{create_file-lookup, create_file-made, lookup-update}
use openfs.Meta.BlockMap.{block_id_of}
use openfs.Meta.NodeManager.{has_online_nodes, get_any_online_node}
use openfs.Meta.Allocator.{Numbered, allocate-Numbered, allocate_no_space_iff}
use openfs.Meta.Service.{
  MetaService, create_fs_file, allocate_blocks, commit_blocks, get_file_info, get_block_locations,
}
use openfs.Meta.Service.Commits
use openfs.Meta.Service.Commits.{
  commit_blocks-committed, get_block_locations-commit_blocks-allocate_blocks, committed,
}

-- The state of the metadata server between requests.
pub record Ready (s : MetaService) : Type 0 where
  pub consistent : IsConsistent s.namespace_mgr
  pub room : HasRoom s.namespace_mgr
  pub blocks : Commits.IsValid s
  pub unlisted :
      (id : ℕ)
      → s.namespace_mgr.inode_table.next_inode_id ≤ id
      → Map.find id s.block_map.inode_blocks ≡ none

-- A node is online if an allocation succeeds.
online_if :
    (s : MetaService) (count : ℕ) (level : BlkLevel) (clock : ℕ → ℕ) (allocated : List BlockMeta)
    → Commits.IsValid s
    → (allocate_blocks s count level clock).1 ≡ ok allocated
    → has_online_nodes s.node_mgr ≡ true
unfolding allocate_blocks
online_if s count level clock allocated v given = elim (Bool-cases (has_online_nodes s.node_mgr)) [
  | inl online ↦ online
  | inr none_online ↦
      let refused =
        (allocate_no_space_iff s.block_allocator s.node_mgr count level clock v.nodes).1
          (λ on. cc) in
      ground (arith, refused, given)
]

Numbered-below :
    (from : ℕ) (level : BlkLevel) (node : ℕ) (blocks : List BlockMeta)
    → from + length blocks < u64_mod
    → Numbered from level node blocks
    → All (λ (b : BlockMeta). b.block_id < u64_mod) blocks
Numbered-below from level node [] room h = tt
Numbered-below from level node (b ∷ blocks) room h = (
  omega (arith, room, h.0),
  Numbered-below (from + 1) level node blocks (omega (arith, room)) h.4,
)

-- The ids that are given do not wrap.
pub allocate_blocks-below :
    (s : MetaService) (count : ℕ) (level : BlkLevel) (clock : ℕ → ℕ) (allocated : List BlockMeta)
    → Commits.IsValid s
    → s.block_allocator.next_block_id + count < u64_mod
    → (allocate_blocks s count level clock).1 ≡ ok allocated
    → All (λ (b : BlockMeta). b.block_id < u64_mod) allocated
unfolding allocate_blocks
allocate_blocks-below s count level clock allocated v room given =
    let online = online_if s count level clock allocated v given in
    let (blocks, made, total, numbered) =
      allocate-Numbered s.block_allocator s.node_mgr count level clock v.nodes online room in
    let same : blocks ≡ allocated = ground (arith, made, given) in
    subst (λ (bs : List BlockMeta). All (λ (b : BlockMeta). b.block_id < u64_mod) bs) same
      (Numbered-below s.block_allocator.next_block_id level (get_any_online_node s.node_mgr) blocks
        (omega (arith, total, room)) numbered)

module _ (s : MetaService) (path : Name) (owner : Owner) (size now : ℕ) (inode : Inode)
    (ready : Ready s) (other : is_root path ≡ false)
    (made : (create_fs_file s path owner size now).1 ≡ ok inode) where
  abbrev created : MetaService
  created = (create_fs_file s path owner size now).0

  pub created-IsValid : Commits.IsValid created
  unfolding create_fs_file
  created-IsValid = record {
    nodes = ready.blocks.nodes;
    complete = ready.blocks.complete;
    ids_below = ready.blocks.ids_below;
  }

  -- A new file is found, with the size that it was created with.
  pub get_file_info-create_fs_file : (get_file_info created path ≡ ok inode) × (inode.size ≡ size)
  unfolding get_file_info create_fs_file
  get_file_info-create_fs_file =
      let ns = s.namespace_mgr in
      let (found, _) =
        create_file-lookup ns ready.consistent ready.room path owner size now inode other made in
      let (sized, _, _) =
        create_file-made ns ready.consistent ready.room path owner size now inode made in
      (found, sized)

  module _ (count : ℕ) (level : BlkLevel) (clock : ℕ → ℕ) (allocated filled : List BlockMeta)
      (mtime ctime : ℕ) (given : (allocate_blocks created count level clock).1 ≡ ok allocated)
      (ids_left : s.block_allocator.next_block_id + count < u64_mod)
      (same_ids : map block_id_of filled ≡ map block_id_of allocated) where
    abbrev last : MetaService
    last =
        (commit_blocks (allocate_blocks created count level clock).0 inode.inode_id filled mtime
          ctime).0

    -- Its blocks, once committed, are those that are located.
    pub get_block_locations-committed : get_block_locations last inode.inode_id ≡ ok filled
    unfolding create_fs_file
    get_block_locations-committed =
        let ns = s.namespace_mgr in
        let (_, numbered, _) =
          create_file-made ns ready.consistent ready.room path owner size now inode made in
        let online = online_if created count level clock allocated created-IsValid given in
        let (blocks, given', _, f) =
          get_block_locations-commit_blocks-allocate_blocks created inode.inode_id count level clock
            created-IsValid online ids_left
            (ready.unlisted inode.inode_id (omega (arith, numbered))) in
        let same : allocated ≡ blocks = cc in
        f filled mtime ctime (same_ids ∙ ap (λ (bs : List BlockMeta). map block_id_of bs) same)

    -- And its inode has their size.
    pub get_file_info-committed :
        get_file_info last path ≡ ok (committed created inode.inode_id filled mtime ctime inode)
    unfolding get_file_info create_fs_file allocate_blocks
    get_file_info-committed =
        let ns = s.namespace_mgr in
        let ns' = created.namespace_mgr in
        let (found, _) = get_file_info-create_fs_file in
        let (_, _, there) =
          create_file-made ns ready.consistent ready.room path owner size now inode made in
        let c' = create_file-IsConsistent ns ready.consistent ready.room path owner size now in
        let (placed, _, same, _) =
          commit_blocks-committed (allocate_blocks created count level clock).0 inode.inode_id
            filled mtime ctime inode c' there in
        lookup-update ns' last.namespace_mgr path inode
          (committed created inode.inode_id filled mtime ctime inode) c' other found same placed
