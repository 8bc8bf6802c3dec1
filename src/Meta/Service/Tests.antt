-- ===== src/Meta/Service/Tests.antt =====
-- A data node registers, a file is created, its blocks are allocated and committed; and instances of
-- the theorems about the handlers and the components behind them.
use openfs.Common.{
  ℕ, ◌<◌, ◌≡◌, ◌≢◌, ◌↔◌, List, [], ◌∷◌, ◌++◌, map, true, arith, refl, length, eqs, find_first,
  erase_first,
}
use openfs.Common.Map
use openfs.Common.Map.{Map}
use openfs.Types.{
  Name, Inode, BlockMeta, l1, block_level_size, select_block_level, ok, err, no_space,
}
use openfs.Meta.InodeTable
use openfs.Meta.Path.{
  split_path, resolve_components, resolve_path, is_root, starts_with_slash, is_directory,
  is_regular,
}
use openfs.Meta.Namespace
use openfs.Meta.Namespace.{Owner}
use openfs.Meta.Namespace.History
use openfs.Meta.Namespace.Consistency.{IsConsistent}
use openfs.Meta.BlockMap
use openfs.Meta.BlockMap.{
  BlockMap, add_blocks, get_blocks, remove_blocks, ids_of, collect, add_metas, erase_metas,
}
use openfs.Meta.BlockMap.Laws.{IsComplete, NewBlocks}
use openfs.Meta.NodeManager
use openfs.Meta.NodeManager.{
  NodeManager, register_node, get_any_online_node, has_online_nodes, first_online, some_online,
  get_any_online_node_iff, register_node-IsValid,
}
use openfs.Meta.Allocator
use openfs.Meta.Allocator.{
  allocate, make_blocks, allocate_no_space_iff, allocate-Numbered, Numbered,
}
use openfs.Meta.Service
use openfs.Meta.Service.{
  MetaService, create_fs_file, commit_blocks, get_block_locations, allocate_blocks, total_size,
  register,
}
use openfs.Meta.Service.Commits
use openfs.Meta.Service.Commits.{
  commit_blocks-inode, commit_blocks-get_block_locations,
  get_block_locations-commit_blocks-allocate_blocks, sizes,
}

serving : Unit {0}
unfolding Namespace.create_file Namespace.add_file Namespace.init resolve_path resolve_components
    split_path is_root starts_with_slash is_directory is_regular eqs find_first erase_first Map.find
    Map.put Map.erase InodeTable.init InodeTable.get InodeTable.create InodeTable.update
    InodeTable.allocate_inode_id select_block_level block_level_size add_blocks get_blocks
    remove_blocks collect add_metas erase_metas register_node get_any_online_node has_online_nodes
    first_online some_online allocate make_blocks Service.init create_fs_file commit_blocks
    get_block_locations allocate_blocks total_size register
serving = tt

abbrev user : Owner
user = record { mode = 0o644; uid = 0; gid = 0 }

abbrev path_a : Name
path_a = b'/' ∷ b'a' ∷ []

abbrev with_node : MetaService
with_node = (register (Service.init 1) (b'n' ∷ []) 1000 2).1

abbrev with_file : MetaService
with_file = (create_fs_file with_node path_a user 600000 3).0

-- Two blocks of 512 KB for inode 2.
abbrev two_blocks : List BlockMeta
two_blocks = (make_blocks 2 1 l1 1 1 (λ (r : ℕ). 4)).0

allocated : (allocate_blocks with_file 2 l1 (λ (r : ℕ). 4)).1 ≡ ok two_blocks
unfolding serving
allocated = refl

file_a : Inode
file_a = Namespace.new_file 2 1 (b'a' ∷ []) user 600000 3

empty-IsValid : NodeManager.IsValid NodeManager.empty
empty-IsValid = (omega arith, tt)

with_node-IsValid :
    NodeManager.IsValid (register_node NodeManager.empty (b'n' ∷ []) 1000 2).1
    × ((register_node NodeManager.empty (b'n' ∷ []) 1000 2).0 ≡ 1)
    × (0 < get_any_online_node (register_node NodeManager.empty (b'n' ∷ []) 1000 2).1)
with_node-IsValid =
    register_node-IsValid NodeManager.empty (b'n' ∷ []) 1000 2 empty-IsValid (omega arith)

allocate_no_space_iff_example :
    (allocate Allocator.init NodeManager.empty 2 l1 (λ (r : ℕ). 4) ≡ (Allocator.init, err no_space))
    ↔ (¬ (has_online_nodes NodeManager.empty ≡ true))
allocate_no_space_iff_example =
    allocate_no_space_iff Allocator.init NodeManager.empty 2 l1 (λ (r : ℕ). 4) empty-IsValid

allocate-Numbered_example :
    (blocks : List BlockMeta) × (allocate Allocator.init with_node.node_mgr 2 l1 (λ (r : ℕ). 4)
      ≡ (record Allocator.init { next_block_id = 3 }, ok blocks))
    × (length blocks ≡ 2)
    × Numbered 1 l1 (get_any_online_node with_node.node_mgr) blocks
unfolding serving
allocate-Numbered_example =
    allocate-Numbered Allocator.init with_node.node_mgr 2 l1 (λ (r : ℕ). 4) with_node-IsValid.0 refl
      (omega arith)

with_file-IsConsistent : IsConsistent with_file.namespace_mgr
unfolding serving History.step History.run
with_file-IsConsistent =
    History.run-IsConsistent (Namespace.init 1) (History.create_request path_a user 600000 3 ∷ [])
      (History.init-IsConsistent 1) (omega arith)

commit_blocks-inode_example :
    ((commit_blocks with_file 2 two_blocks 5 6).1 ≡ ok tt)
    × (InodeTable.get (commit_blocks with_file 2 two_blocks 5 6).0.namespace_mgr.inode_table 2
        ≡ ok (record file_a { size = sizes two_blocks; mtime_ns = 5; ctime_ns = 6 }))
    × ((k : ℕ)
        → 2 ≢ k
        → InodeTable.get (commit_blocks with_file 2 two_blocks 5 6).0.namespace_mgr.inode_table k
          ≡ InodeTable.get with_file.namespace_mgr.inode_table k)
    × ((commit_blocks with_file 2 two_blocks 5 6).0.namespace_mgr.dir_entries
        ≡ with_file.namespace_mgr.dir_entries)
    × IsConsistent (commit_blocks with_file 2 two_blocks 5 6).0.namespace_mgr
unfolding serving file_a
commit_blocks-inode_example =
    commit_blocks-inode with_file 2 two_blocks 5 6 file_a with_file-IsConsistent refl

empty-IsComplete : IsComplete BlockMap.empty
unfolding Map.find
empty-IsComplete inode_id ids h = ground arith

new_blocks : NewBlocks BlockMap.empty.block_metas two_blocks
unfolding serving
new_blocks = (refl, ((λ e. omega (arith, e)), tt), (refl, tt, tt))

commit_blocks-get_block_locations_example :
    (get_block_locations (commit_blocks with_file 2 two_blocks 5 6).0 2
      ≡ ok
          (collect (ids_of 2 BlockMap.empty.inode_blocks) BlockMap.empty.block_metas ++ two_blocks))
    × ((other : ℕ)
        → 2 ≢ other
        → get_block_locations (commit_blocks with_file 2 two_blocks 5 6).0 other
          ≡ get_block_locations with_file other)
unfolding serving
commit_blocks-get_block_locations_example =
    commit_blocks-get_block_locations with_file 2 two_blocks 5 6 empty-IsComplete new_blocks

with_file-IsValid : Commits.IsValid with_file
unfolding serving
with_file-IsValid = record {
  nodes = with_node-IsValid.0;
  complete = empty-IsComplete;
  ids_below = λ id b h. ground arith;
}

get_block_locations-commit_blocks-allocate_blocks_example :
    (blocks : List BlockMeta) × ((allocate_blocks with_file 2 l1 (λ (r : ℕ). 4)).1 ≡ ok blocks)
    × (length blocks ≡ 2)
    × ((filled : List BlockMeta) (mtime ctime : ℕ)
        → map BlockMap.block_id_of filled ≡ map BlockMap.block_id_of blocks
        → get_block_locations
            (commit_blocks (allocate_blocks with_file 2 l1 (λ (r : ℕ). 4)).0 2 filled mtime ctime).0
            2
          ≡ ok filled)
unfolding serving
get_block_locations-commit_blocks-allocate_blocks_example =
    get_block_locations-commit_blocks-allocate_blocks with_file 2 2 l1 (λ (r : ℕ). 4)
      with_file-IsValid refl (omega arith) refl
