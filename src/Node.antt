-- ===== src/Node.antt =====
-- src/data/disk_pool.cpp, data_node.h, data_node.cpp and data_service_impl.cpp: the disks of a data
-- node, the node, and the request handlers of its service. A pool is the list of its disks. Handlers
-- hold the node's or the pool's mutex for the whole call, so each is one step; gRPC messages are the
-- fields that a handler reads and writes.
mod Pool
pub mod Stores
pub mod Storing
pub mod Tests
use openfs.Common.{
  ℕ, zero, suc, ◌+◌, ◌*◌, ◌%◌, List, [], ◌∷◌, Option, none, some, Bool, true, false, not, ◌&&◌,
  length, ltb, ◌==◌, get_elem?, set, if◌then◌else◌, u32_mod, u64_mod,
}
use openfs.Common.Map
use openfs.Common.Map.{Map}
use openfs.Types.{BlkLevel, Result, ok, err, no_space, not_found, crc_mismatch, select_block_level}
use openfs.Bitmap.{free_blocks}
use openfs.Crc.{compute_crc32}
use openfs.Disk
use openfs.Disk.{DiskManager, DiskBlock, is_normal}

-- The loop of `SelectDisk`, from disk `i` on; `none` is -1.
unfoldable pub select_from : List DiskManager → ℕ → Option ℕ → ℕ → Option ℕ
select_from [] i best best_free = best
select_from (d ∷ disks) i best best_free =
    let free_count = free_blocks d.bitmap in
    let better = ltb best_free free_count && is_normal d.state in
    select_from disks (i + 1) (if better then some i else best)
      (if better then free_count else best_free)

unfoldable pub select_disk : List DiskManager → Option ℕ
unfolding select_from
select_disk disks = select_from disks 0 none 0

-- `DiskPool::WriteBlock`; the result is the disk and the offset.
unfoldable pub write_to_pool :
    List DiskManager → ℕ → BlkLevel → List ℕ → ℕ → List DiskManager × Result (ℕ × ℕ)
write_to_pool disks block_id level payload crc32 = elim (select_disk disks) [
  | none ↦ (disks, err no_space)
  | some i ↦ elim (get_elem? disks i) [
    | none ↦ (disks, err no_space)
    | some d ↦
        let (d', r) = Disk.write_block d block_id level payload crc32 in
        (set disks i d', elim r [ err s ↦ err s | ok offset ↦ ok (i, offset) ])
  ]
]

unfoldable pub read_from_pool : List DiskManager → ℕ → ℕ → List DiskManager × Result DiskBlock
read_from_pool disks disk_id offset = elim (get_elem? disks disk_id) [
  | none ↦ (disks, err not_found)
  | some d ↦ let (d', r) = Disk.read_block d offset in (set disks disk_id d', r)
]

unfoldable pub delete_from_pool :
    List DiskManager → ℕ → ℕ → ℕ → List DiskManager × Result (Unit {0})
delete_from_pool disks disk_id offset data_size = elim (get_elem? disks disk_id) [
  | none ↦ (disks, err not_found)
  | some d ↦ let (d', r) = Disk.delete_block d offset data_size in (set disks disk_id d', r)
]

-- `RecoverAll`: the first disk that fails ends the loop.
unfoldable pub recover_all : List DiskManager → List DiskManager × Result (Unit {0})
recover_all [] = ([], ok tt)
recover_all (d ∷ disks) =
    let (d', r) = Disk.recover d in
    let (rest, r') = recover_all disks in
    elim r [ err s ↦ (d' ∷ disks, err s) | ok _ ↦ (d' ∷ rest, r') ]

unfoldable pub total_free_space : List DiskManager → ℕ
total_free_space [] = 0
total_free_space (d ∷ disks) = (Disk.free_space d + total_free_space disks) % u64_mod

unfoldable pub total_data_space : List DiskManager → ℕ
total_data_space [] = 0
total_data_space (d ∷ disks) = (Disk.total_data_space d + total_data_space disks) % u64_mod

pub record BlockLocation : Type 0 where
  pub disk_id : ℕ
  pub physical_offset : ℕ
  pub data_size : ℕ

-- What the storage of a `DataNode` keeps.
pub record DataNode : Type 0 where
  pub disks : List DiskManager
  pub block_locations : Map BlockLocation

unfoldable pub write_block : DataNode → ℕ → BlkLevel → List ℕ → ℕ → DataNode × Result (ℕ × ℕ)
write_block n block_id level payload crc32 =
    let (disks, r) = write_to_pool n.disks block_id level payload crc32 in
    elim r [
      | err s ↦ (record n { disks = disks }, err s)
      | ok (i, offset) ↦ (
        record {
          disks = disks;
          block_locations =
              Map.put block_id
                (record { disk_id = i; physical_offset = offset; data_size = length payload })
                n.block_locations;
        },
        ok (i, offset),
      )
    ]

unfoldable pub read_block : DataNode → ℕ → ℕ → DataNode × Result DiskBlock
read_block n disk_id offset =
    let (disks, r) = read_from_pool n.disks disk_id offset in (record n { disks = disks }, r)

unfoldable pub delete_block : DataNode → ℕ → DataNode × Result (Unit {0})
delete_block n block_id = elim (Map.find block_id n.block_locations) [
  | none ↦ (n, err not_found)
  | some at ↦
      let (disks, r) = delete_from_pool n.disks at.disk_id at.physical_offset at.data_size in
      elim r [
        | err s ↦ (record n { disks = disks }, err s)
        | ok _ ↦ (
          record { disks = disks; block_locations = Map.erase block_id n.block_locations },
          ok tt,
        )
      ]
]

-- `CollectBlockIds` and `GetBlockCount`
unfoldable pub collect_block_ids : Map BlockLocation → List ℕ
collect_block_ids [] = []
collect_block_ids ((id, at) ∷ locations) = id ∷ collect_block_ids locations

unfoldable pub get_block_count : DataNode → ℕ
get_block_count n = length n.block_locations % u32_mod

-- `DataServiceImpl::WriteBlock`; the response reuses `segment_id` for the disk.
unfoldable pub serve_write : DataNode → ℕ → List ℕ → ℕ → DataNode × Result (ℕ × ℕ)
serve_write n block_id payload crc32 =
    if compute_crc32 payload == crc32
    then write_block n block_id (select_block_level (length payload)) payload crc32
    else (n, err crc_mismatch)

-- `DataServiceImpl::ReadBlock`; the disk is cast to a `uint32_t`.
unfoldable pub serve_read : DataNode → ℕ → ℕ → DataNode × Result (List ℕ × ℕ)
serve_read n segment_id offset =
    let (n', r) = read_block n (segment_id % u32_mod) offset in
    (n', elim r [ err s ↦ err s | ok b ↦ ok (b.payload, b.crc32) ])

unfoldable pub serve_delete : DataNode → ℕ → DataNode × Result (Unit {0})
serve_delete n block_id = delete_block n block_id
