-- ===== src/Client/Tests.antt =====
-- A file written to a metadata server and one data node, and read back.
use openfs.Common.{
  ℕ, ◌+◌, ◌<◌, ◌≡◌, ◌^◌, List, [], ◌∷◌, true, false, u64_mod, arith, refl, eqs, find_first,
  erase_first, le_bytes,
}
use openfs.Common.Map
use openfs.Types.{Name, ok, block_level_size, select_block_level}
use openfs.Crc.{compute_crc32, crc32_impl}
use openfs.Splitter.{split, split_with_level, split_loop, block_count, slice_crc32}
use openfs.Bitmap
use openfs.Bitmap.{get_bit}
use openfs.Device.{write_device}
use openfs.Disk
use openfs.Disk.Format.{layout, size_bitmap, data_blocks_left, needed_bitmap_blocks}
use openfs.Disk.{calc_physical_blocks, is_normal, disk_block_header}
use openfs.Node.{select_disk, select_from, write_to_pool, serve_write, serve_read}
use openfs.Node
use openfs.Node.Tests.{node, node-Keeps}
use openfs.Meta.InodeTable
use openfs.Meta.Path.{
  split_path, resolve_components, resolve_path, is_root, starts_with_slash, is_directory,
  is_regular,
}
use openfs.Meta.Namespace
use openfs.Meta.Namespace.History
use openfs.Meta.BlockMap.{add_blocks, get_blocks, collect, add_metas}
use openfs.Meta.NodeManager
use openfs.Meta.NodeManager.{
  register_node, get_any_online_node, has_online_nodes, first_online, some_online,
  register_node-IsValid,
}
use openfs.Meta.Allocator.{allocate, make_blocks}
use openfs.Meta.Service
use openfs.Meta.Service.{
  MetaService, create_fs_file, commit_blocks, get_block_locations, allocate_blocks, total_size,
  register,
}
use openfs.Meta.Service.Files.{Ready}
use openfs.Client.{
  System, Circumstances, Fates, delivered, call, resolve_addr, write_blocks, commit_file,
  store_file, write_file, read_file,
}
use openfs.Client.RoundTrip.{IsReady, Arrives, read_file-write_file}
use openfs.Client.SingleNode.{single_node, single_node-ServesBlocks}

evaluation : Unit {0}
unfolding Namespace.create_file Namespace.add_file Namespace.init resolve_path resolve_components
    split_path is_root starts_with_slash is_directory is_regular eqs find_first erase_first Map.find
    Map.put Map.erase InodeTable.init InodeTable.get InodeTable.create InodeTable.update
    InodeTable.allocate_inode_id select_block_level block_level_size add_blocks get_blocks collect
    add_metas register_node get_any_online_node has_online_nodes first_online some_online allocate
    make_blocks Service.init create_fs_file commit_blocks get_block_locations allocate_blocks
    total_size register split split_with_level split_loop block_count slice_crc32 compute_crc32
    crc32_impl call resolve_addr write_blocks commit_file store_file write_file serve_write
    Node.write_block write_to_pool select_disk select_from Disk.write_block Bitmap.allocate
    Bitmap.find_consecutive_free Bitmap.scan Bitmap.load get_bit Bitmap.free_blocks
    Bitmap.count_allocated layout size_bitmap data_blocks_left needed_bitmap_blocks
    calc_physical_blocks is_normal write_device disk_block_header le_bytes
evaluation = tt

abbrev meta : MetaService
meta = (register (Service.init 1) (b'n' ∷ []) 1000 2).1

abbrev system : System single_node
system = record { initialized = true; node_addr_cache = []; meta = meta; nodes = node }

abbrev smooth : Circumstances
smooth = record {
  now = 3;
  clock = λ (k : ℕ). 4;
  mtime = 5;
  ctime = 5;
  creating = delivered;
  allocating = delivered;
  committing = delivered;
  writing = λ (k : ℕ). delivered;
}

abbrev fates : Fates
fates = record { informing = delivered; locating = delivered; reading = λ (k : ℕ). delivered }

abbrev path : Name
path = b'/' ∷ b'a' ∷ []

abbrev bytes : List ℕ
bytes = 1 ∷ 2 ∷ 3 ∷ []

meta-Ready : Ready meta
unfolding evaluation
meta-Ready = record {
  consistent = History.init-IsConsistent 1;
  room = omega arith;
  blocks = record {
    nodes =
        (register_node-IsValid NodeManager.empty (b'n' ∷ []) 1000 2 (omega arith, tt)
          (omega arith)).0;
    complete = λ id ids h. cc;
    ids_below = λ id b h. cc;
  };
  unlisted = λ id le. refl;
}

system-IsReady : IsReady single_node single_node-ServesBlocks system
unfolding evaluation
system-IsReady = record {
  meta_ready = meta-Ready;
  nodes_valid = record { stores = [] ∷ []; keeps = node-Keeps };
  defaults = record { default = λ id addr h. cc };
}

written : (write_file single_node system smooth path 420 bytes).1 ≡ ok tt
unfolding evaluation
written = refl

away : is_root path ≡ false
unfolding evaluation
away = refl

ids_left : meta.block_allocator.next_block_id + 2 ^ 32 < u64_mod
unfolding evaluation
ids_left = omega arith

arrives : Arrives fates
arrives = record { informed = refl; located = refl; read = λ k. refl }

read_file-write_file_example :
    (read_file single_node (write_file single_node system smooth path 420 bytes).0 fates path).1
    ≡ ok bytes
read_file-write_file_example =
    read_file-write_file single_node single_node-ServesBlocks system smooth path 420 bytes fates
      system-IsReady away (omega arith) ids_left written arrives
