-- ===== src/Meta/BlockMap.antt =====
-- src/meta/block_map.h and block_map.cpp: the blocks of each file. Each method holds the map's mutex
-- from its start to its end, so a method is one step.
pub mod Laws
use openfs.Common.{ℕ, List, [], ◌∷◌, ◌++◌, none, some, map, if◌then◌else◌}
use openfs.Common.Map
use openfs.Common.Map.{Map}
use openfs.Types.{BlockMeta, Result, ok, err, not_found}

pub record BlockMap : Type 0 where
  pub inode_blocks : Map (List ℕ)
  pub block_metas : Map BlockMeta

abbrev pub empty : BlockMap
empty = record { inode_blocks = []; block_metas = [] }

-- `inode_blocks_[inode_id]`, which makes an empty list where there is none.
abbrev pub ids_of : ℕ → Map (List ℕ) → List ℕ
ids_of inode_id m = elim (Map.find inode_id m) [ none ↦ [] | some ids ↦ ids ]

abbrev pub block_id_of : BlockMeta → ℕ
block_id_of b = b.block_id

-- The writes to `block_metas_` in the loop of `AddBlocks`.
unfoldable pub add_metas : List BlockMeta → Map BlockMeta → Map BlockMeta
add_metas [] metas = metas
add_metas (b ∷ blocks) metas = add_metas blocks (Map.put b.block_id b metas)

unfoldable pub add_blocks : BlockMap → ℕ → List BlockMeta → BlockMap × Result (Unit {0})
add_blocks m inode_id blocks = (
  record {
    inode_blocks =
        Map.put inode_id (ids_of inode_id m.inode_blocks ++ map block_id_of blocks) m.inode_blocks;
    block_metas = add_metas blocks m.block_metas;
  },
  ok tt,
)

-- The loop of `GetBlocks`: an id without metadata is skipped.
unfoldable pub collect : List ℕ → Map BlockMeta → List BlockMeta
collect [] metas = []
collect (id ∷ ids) metas =
    let rest = collect ids metas in elim (Map.find id metas) [ none ↦ rest | some b ↦ b ∷ rest ]

unfoldable pub get_blocks : BlockMap → ℕ → Result (List BlockMeta)
get_blocks m inode_id = elim (Map.find inode_id m.inode_blocks) [
  | none ↦ err not_found
  | some ids ↦ ok (collect ids m.block_metas)
]

unfoldable pub update_block : BlockMap → BlockMeta → BlockMap × Result (Unit {0})
update_block m block = elim (Map.find block.block_id m.block_metas) [
  | none ↦ (m, err not_found)
  | some _ ↦ (record m { block_metas = Map.put block.block_id block m.block_metas }, ok tt)
]

unfoldable pub erase_metas : List ℕ → Map BlockMeta → Map BlockMeta
erase_metas [] metas = metas
erase_metas (id ∷ ids) metas = erase_metas ids (Map.erase id metas)

unfoldable pub remove_blocks : BlockMap → ℕ → BlockMap × Result (Unit {0})
remove_blocks m inode_id = elim (Map.find inode_id m.inode_blocks) [
  | none ↦ (m, err not_found)
  | some ids ↦ (
    record {
      inode_blocks = Map.erase inode_id m.inode_blocks;
      block_metas = erase_metas ids m.block_metas;
    },
    ok tt,
  )
]
