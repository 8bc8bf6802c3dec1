-- ===== src/Node/Tests.antt =====
-- A node of one small disk, and instances of the theorems about it.
use openfs.Common.{ℕ, ◌<◌, ◌≡◌, ◌⊎◌, List, [], ◌∷◌, none, some, true, arith, get_elem?, All}
use openfs.Types.{Status, ok, err}
use openfs.Bitmap.{free_blocks}
use openfs.Disk.{DiskManager, is_normal}
use openfs.Disk.Layout.{Block}
use openfs.Disk.Tests.{disk, disk-Represents, used, blocks, used-Represents, block, stands}
use openfs.Node.{DataNode, select_disk, serve_write, serve_read}
use openfs.Node.Pool.{AtMost, select_disk-AtMost}
use openfs.Node.Stores.{Keeps, Stores, Stands}
use openfs.Node.Storing.{serve_read-serve_write}

abbrev pub node : DataNode
node = record { disks = disk ∷ []; block_locations = [] }

pub node-Keeps : Keeps node ([] ∷ [])
unfolding Stores
node-Keeps = record { disks = (disk-Represents, tt); few = omega arith }

abbrev payload : List ℕ
payload = 1 ∷ 2 ∷ 3 ∷ []

-- The node after its disk took a block, which stands at 8192.
abbrev kept : DataNode
kept = record { disks = used ∷ []; block_locations = [] }

kept-Keeps : Keeps kept (blocks ∷ [])
unfolding Stores
kept-Keeps = record { disks = (used-Represents, tt); few = omega arith }

serve_read-serve_write_example :
    let n' = (serve_write kept 9 payload 0x55BC801D).0 in
    (((s : Status) × ((serve_write kept 9 payload 0x55BC801D).1 ≡ err s))
      ⊎ ((i : ℕ) × (offset : ℕ) × ((serve_write kept 9 payload 0x55BC801D).1 ≡ ok (i, offset))
          × ((serve_read n' i offset).1 ≡ ok (payload, 0x55BC801D))))
    × ((i offset : ℕ) (b : Block)
        → Stands (blocks ∷ []) i offset b
        → (serve_read n' i offset).1 ≡ ok (b.content.payload, b.content.crc32))
serve_read-serve_write_example =
    serve_read-serve_write kept (blocks ∷ []) 9 payload 0x55BC801D kept-Keeps (omega arith)
      (omega arith)

-- It is still there after another write.
still_there :
    (serve_read (serve_write kept 9 payload 0x55BC801D).0 0 8192).1
    ≡ ok (block.content.payload, block.content.crc32)
unfolding Stands
still_there =
    (serve_read-serve_write kept (blocks ∷ []) 9 payload 0x55BC801D kept-Keeps (omega arith)
        (omega arith)).1
      0 8192 block stands

select_disk-AtMost_example :
    ((select_disk (disk ∷ []) ≡ none) × All (AtMost 0) (disk ∷ []))
    ⊎ ((i : ℕ) × (d : DiskManager) × (select_disk (disk ∷ []) ≡ some i)
        × (get_elem? (disk ∷ []) i ≡ some d)
        × (is_normal d.state ≡ true)
        × (0 < free_blocks d.bitmap)
        × All (AtMost (free_blocks d.bitmap)) (disk ∷ []))
select_disk-AtMost_example = select_disk-AtMost (disk ∷ [])
