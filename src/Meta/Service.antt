-- ===== src/Meta/Service.antt =====
-- src/meta/meta_service_impl.h and meta_service_impl.cpp: the request handlers of the metadata
-- server, and those of the node service. A request and a response are the fields that the handler
-- reads and writes; the conversion to and from the protobuf messages copies them one by one, and
-- the gRPC status is always `OK`. A handler calls components that lock one at a time: it is one
-- step here, which is its behaviour when requests do not interleave.
pub mod Commits
pub mod Files
mod Tests
use openfs.Common.{ℕ, List, [], ◌∷◌, ◌+◌, ◌%◌, map, Option, none, some, u64_mod}
use openfs.Types.{Name, Inode, DirEntry, InodeType, BlkLevel, BlockMeta, Status, Result, ok, err}
use openfs.Meta.InodeTable
use openfs.Meta.Namespace
use openfs.Meta.Namespace.{Namespace, Owner}
use openfs.Meta.BlockMap
use openfs.Meta.BlockMap.{BlockMap}
use openfs.Meta.NodeManager
use openfs.Meta.NodeManager.{NodeManager}
use openfs.Meta.Allocator
use openfs.Meta.Allocator.{BlockAllocator}

-- The members of `MetaServiceImpl`; the inode table is that of the namespace.
pub record MetaService : Type 0 where
  pub namespace_mgr : Namespace
  pub block_map : BlockMap
  pub node_mgr : NodeManager
  pub block_allocator : BlockAllocator

-- `MetaServiceImpl()`
unfoldable pub init : ℕ → MetaService
unfolding Namespace.init InodeTable.init
init now = record {
  namespace_mgr = Namespace.init now;
  block_map = BlockMap.empty;
  node_mgr = NodeManager.empty;
  block_allocator = Allocator.init;
}

abbrev with_namespace {ℓ} :
    {A : Type ℓ} → MetaService → Namespace × Result A → MetaService × Result A
with_namespace s (ns, r) = (record s { namespace_mgr = ns }, r)

unfoldable pub create_fs_file : MetaService → Name → Owner → ℕ → ℕ → MetaService × Result Inode
create_fs_file s path owner file_size now =
    with_namespace s (Namespace.create_file s.namespace_mgr path owner file_size now)

unfoldable pub remove_fs_file : MetaService → Name → MetaService × Result (Unit {0})
remove_fs_file s path = with_namespace s (Namespace.delete_file s.namespace_mgr path)

unfoldable pub get_file_info : MetaService → Name → Result Inode
get_file_info s path = Namespace.lookup s.namespace_mgr path

unfoldable pub rename : MetaService → Name → Name → ℕ → MetaService × Result (Unit {0})
rename s src dst now = with_namespace s (Namespace.rename s.namespace_mgr src dst now)

unfoldable pub mkdir : MetaService → Name → Owner → ℕ → MetaService × Result Inode
mkdir s path owner now = with_namespace s (Namespace.mkdir s.namespace_mgr path owner now)

unfoldable pub read_dir : MetaService → Name → Result (List DirEntry)
read_dir s path = Namespace.read_dir s.namespace_mgr path

unfoldable pub rmdir : MetaService → Name → MetaService × Result (Unit {0})
rmdir s path = with_namespace s (Namespace.rmdir s.namespace_mgr path)

-- The handler reads the inode id of the request only to log it.
unfoldable pub allocate_blocks :
    MetaService → ℕ → BlkLevel → (ℕ → ℕ) → MetaService × Result (List BlockMeta)
allocate_blocks s block_count level clock =
    let (a, r) = Allocator.allocate s.block_allocator s.node_mgr block_count level clock in
    (record s { block_allocator = a }, r)

-- The loop over the sizes of the committed blocks, a `uint64_t` sum.
unfoldable pub total_size : ℕ → List BlockMeta → ℕ
total_size total [] = total
total_size total (b ∷ blocks) = total_size ((total + b.size) % u64_mod) blocks

unfoldable pub commit_blocks :
    MetaService → ℕ → List BlockMeta → ℕ → ℕ → MetaService × Result (Unit {0})
unfolding total_size
commit_blocks s inode_id blocks mtime ctime =
    let (block_map, r) = BlockMap.add_blocks s.block_map inode_id blocks in
    let ns = s.namespace_mgr in
    elim r [
      | err e ↦ (record s { block_map = block_map }, err e)
      | ok _ ↦ elim (InodeTable.get ns.inode_table inode_id) [
        | err _ ↦ (record s { block_map = block_map }, ok tt)
        | ok inode ↦
            let inode' = record inode {
              size = total_size 0 blocks;
              mtime_ns = mtime;
              ctime_ns = ctime;
            } in
            let table = (InodeTable.update ns.inode_table inode').0 in
            (
              record s { block_map = block_map; namespace_mgr = record ns { inode_table = table } },
              ok tt,
            )
      ]
    ]

unfoldable pub get_block_locations : MetaService → ℕ → Result (List BlockMeta)
get_block_locations s inode_id = BlockMap.get_blocks s.block_map inode_id

-- NodeServiceImpl. `ReportBlocks` only answers `kOk`.
unfoldable pub register : MetaService → Name → ℕ → ℕ → ℕ × MetaService
register s address capacity now =
    let (id, m) = NodeManager.register_node s.node_mgr address capacity now in
    (id, record s { node_mgr = m })

unfoldable pub total_used : ℕ → List ℕ → ℕ
total_used total [] = total
total_used total (used ∷ disks) = total_used ((total + used) % u64_mod) disks

unfoldable pub heartbeat : MetaService → ℕ → List ℕ → ℕ → MetaService
unfolding total_used
heartbeat s node_id disks now = record s {
  node_mgr = NodeManager.update_heartbeat s.node_mgr node_id (total_used 0 disks) now;
}
