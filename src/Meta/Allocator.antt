-- ===== src/Meta/Allocator.antt =====
-- src/meta/block_allocator.h and block_allocator.cpp: block ids for new blocks. `fetch_add` on the
-- atomic counters wraps; the clock readings of the loop are the function `clock` of the round.
use openfs.Common.{
  ℕ, zero, suc, List, [], ◌∷◌, ◌+◌, ◌%◌, ◌<◌, ◌≡◌, ◌≢◌, ◌↔◌, some, Option-cases, inl, inr, refl, ap,
  true, arith, length, All, Bool-cases, if◌then◌else◌, ◌==◌, u64_mod,
}
use openfs.Common.Map
use openfs.Common.Map.{Map}
use openfs.Types.{BlkLevel, block_level_size, BlockMeta, Result, ok, err, no_space}
use openfs.Meta.NodeManager.{
  NodeManager, get_any_online_node, has_online_nodes, get_any_online_node_iff,
}
use openfs.Meta.NodeManager
use openfs.Meta.BlockMap.Laws.{NewBlocks}

pub record BlockAllocator : Type 0 where
  pub next_block_id : ℕ
  pub next_segment_id : ℕ

abbrev pub init : BlockAllocator
init = record { next_block_id = 1; next_segment_id = 1 }

-- The loop of `Allocate`, for the rounds left; it returns the blocks and the counter after it.
unfoldable pub make_blocks : ℕ → ℕ → BlkLevel → ℕ → ℕ → (ℕ → ℕ) → List BlockMeta × ℕ
make_blocks zero id level node seg clock = ([], id)
make_blocks (suc rounds) id level node seg clock =
    let block : BlockMeta = record {
      block_id = id;
      level = level;
      size = block_level_size level;
      crc32 = 0;
      node_id = node;
      segment_id = seg;
      offset = 0;
      create_time = clock rounds;
      replica_count = 1;
      access_count = 0;
    } in
    let (blocks, id') = make_blocks rounds ((id + 1) % u64_mod) level node seg clock in
    (block ∷ blocks, id')

unfoldable pub allocate :
    BlockAllocator → NodeManager → ℕ → BlkLevel → (ℕ → ℕ) → BlockAllocator × Result (List BlockMeta)
unfolding make_blocks
allocate a nodes block_count level clock =
    let target = get_any_online_node nodes in
    if target == 0
    then (a, err no_space)
    else (let (blocks, id) =
          make_blocks block_count a.next_block_id level target a.next_segment_id clock in
        (record a { next_block_id = id }, ok blocks))

-- The ids `from`, `from + 1`, ..., in their order, each on the node with the size of its level.
abbrev pub Numbered : ℕ → BlkLevel → ℕ → List BlockMeta → Type 0
Numbered from level node [] = Unit
Numbered from level node (b ∷ blocks) =
    (b.block_id ≡ from)
    × (b.level ≡ level)
    × (b.size ≡ block_level_size level)
    × (b.node_id ≡ node)
    × Numbered (from + 1) level node blocks

make_blocks-Numbered :
    (n id : ℕ) (level : BlkLevel) (node seg : ℕ) (clock : ℕ → ℕ)
    → id + n < u64_mod
    → Numbered id level node (make_blocks n id level node seg clock).0
      × (length (make_blocks n id level node seg clock).0 ≡ n)
      × ((make_blocks n id level node seg clock).1 ≡ id + n)
unfolding make_blocks
make_blocks-Numbered zero id level node seg clock room = (tt, refl, omega arith)
make_blocks-Numbered (suc n) id level node seg clock room =
    let no_wrap : (id + 1) % u64_mod ≡ id + 1 = omega arith in
    let (numbered, count, next) =
      make_blocks-Numbered n (id + 1) level node seg clock (omega arith) in
    rw no_wrap ((refl, refl, refl, refl, numbered), ap suc count, omega (arith, next))

module _ (a : BlockAllocator) (nodes : NodeManager) (count : ℕ) (level : BlkLevel) (clock : ℕ → ℕ)
    (valid : NodeManager.IsValid nodes) where
  -- When the node ids are positive, an allocation fails with kNoSpace, and takes no id, exactly
  -- when no data node is online.
  pub allocate_no_space_iff :
      (allocate a nodes count level clock ≡ (a, err no_space)) ↔ (¬ (has_online_nodes nodes ≡ true))
  unfolding allocate
  allocate_no_space_iff =
      let online = get_any_online_node_iff nodes valid in
      elim (Bool-cases (get_any_online_node nodes == 0)) [
        | inl offline ↦ ((λ e on. ground (arith, online.1)), λ e. ground arith)
        | inr there ↦
            ((λ e on. ground (arith)), λ no_one. absurd (no_one (online.0 (ground arith))))
      ]

  -- When the node ids are positive, a node is online and the block ids do not wrap, an allocation
  -- gives the number of blocks asked for, of the level asked for, on that node, with consecutive
  -- ids from the counter, which it moves past them.
  pub allocate-Numbered :
      has_online_nodes nodes ≡ true
      → a.next_block_id + count < u64_mod
      → (blocks : List BlockMeta) × (allocate a nodes count level clock
          ≡ (record a { next_block_id = a.next_block_id + count }, ok blocks))
        × (length blocks ≡ count)
        × Numbered a.next_block_id level (get_any_online_node nodes) blocks
  unfolding allocate
  allocate-Numbered on room =
      let there = (get_any_online_node_iff nodes valid).1 on in
      let (numbered, total, next) =
        make_blocks-Numbered count a.next_block_id level (get_any_online_node nodes)
          a.next_segment_id clock room in
      (
        (make_blocks count a.next_block_id level (get_any_online_node nodes) a.next_segment_id
            clock).0,
        ground (arith, there, next),
        total,
        numbered,
      )

-- Numbered blocks above every known id are new to a block map.
All-above :
    (from k : ℕ) (level : BlkLevel) (node : ℕ) (blocks : List BlockMeta)
    → k < from
    → Numbered from level node blocks
    → All (λ (c : BlockMeta). c.block_id ≢ k) blocks
All-above from k level node [] lt n = tt
All-above from k level node (b ∷ blocks) lt n =
    ((λ same. omega (arith, n.0, same)), All-above (from + 1) k level node blocks (omega arith) n.4)

pub Numbered-NewBlocks :
    (from : ℕ) (level : BlkLevel) (node : ℕ) (blocks : List BlockMeta) (metas : Map BlockMeta)
    → ((id : ℕ) (b : BlockMeta) → Map.find id metas ≡ some b → id < from)
    → Numbered from level node blocks
    → NewBlocks metas blocks
Numbered-NewBlocks from level node [] metas below n = tt
Numbered-NewBlocks from level node (b ∷ blocks) metas below n = (
  (elim (Option-cases (Map.find b.block_id metas)) [
    | inl absent ↦ absent
    | inr (old, known) ↦ absurd (omega (arith, below b.block_id old known, n.0))
  ]),
  rw n.0 (All-above (from + 1) from level node blocks (omega arith) n.4),
  Numbered-NewBlocks (from + 1) level node blocks metas (λ id b' h. omega (arith, below id b' h))
      n.4,
)
