-- ===== src/Meta/BlockMap/Laws.antt =====
-- What GetBlocks returns after AddBlocks and RemoveBlocks.
use openfs.Common.{
  ℕ, List, [], ◌∷◌, ◌++◌, ◌≡◌, ◌≢◌, inl, inr, refl, ap, ◌∙◌, none, some, map, arith, All,
  All-append, All-map, Option-cases,
}
use mathlib.Core.Path.{subst₂}
use native.Mathlib.Decide.{ℕ_discrete}
use openfs.Common.Map
use openfs.Common.Map.{Map, find-put, find-put_self, find-erase}
use openfs.Types.{BlockMeta, ok, err, not_found}
use openfs.Meta.BlockMap.{
  BlockMap, ids_of, block_id_of, add_metas, add_blocks, collect, get_blocks, erase_metas,
  remove_blocks,
}

-- The metadata has an entry for the id.
abbrev pub Known : Map BlockMeta → ℕ → Type 0
Known metas id = (b : BlockMeta) × (Map.find id metas ≡ some b)

-- The ids of new blocks: all different, and none in use.
abbrev pub NewBlocks : Map BlockMeta → List BlockMeta → Type 0
NewBlocks metas [] = Unit
NewBlocks metas (b ∷ blocks) =
    (Map.find b.block_id metas ≡ none)
    × All (λ (c : BlockMeta). c.block_id ≢ b.block_id) blocks
    × NewBlocks metas blocks

-- Writing the metadata of other blocks leaves an entry alone.
find-add_metas_ne :
    (id : ℕ) (blocks : List BlockMeta) (metas : Map BlockMeta)
    → All (λ (c : BlockMeta). c.block_id ≢ id) blocks
    → Map.find id (add_metas blocks metas) ≡ Map.find id metas
unfolding add_metas
find-add_metas_ne id [] metas ne = refl
find-add_metas_ne id (b ∷ blocks) metas ne =
    let other = ne.0 in
    find-add_metas_ne id blocks (Map.put b.block_id b metas) ne.1
    ∙ ground (arith, find-put id b.block_id b metas, other)

NewBlocks-put :
    (b : BlockMeta) (blocks : List BlockMeta) (metas : Map BlockMeta)
    → All (λ (c : BlockMeta). c.block_id ≢ b.block_id) blocks
    → NewBlocks metas blocks
    → NewBlocks (Map.put b.block_id b metas) blocks
NewBlocks-put b [] metas ne new = tt
NewBlocks-put b (c ∷ blocks) metas ne new =
    let other = ne.0 in
    (
      ground (arith, find-put c.block_id b.block_id b metas, new.0, other),
      new.1,
      NewBlocks-put b blocks metas ne.1 new.2,
    )

-- The new blocks are read back in their order.
collect-new :
    (blocks : List BlockMeta) (metas : Map BlockMeta)
    → NewBlocks metas blocks
    → collect (map block_id_of blocks) (add_metas blocks metas) ≡ blocks
unfolding collect add_metas
collect-new [] metas new = refl
collect-new (b ∷ blocks) metas new =
    let metas' = Map.put b.block_id b metas in
    let here : Map.find b.block_id (add_metas blocks metas') ≡ some b =
      find-add_metas_ne b.block_id blocks metas' new.1 ∙ find-put_self b.block_id b metas in
    let rest = collect-new blocks metas' (NewBlocks-put b blocks metas new.1 new.2) in
    ground (arith, here, rest)

not_new :
    (id : ℕ) (blocks : List BlockMeta) (metas : Map BlockMeta)
    → Known metas id
    → NewBlocks metas blocks
    → All (λ (c : BlockMeta). c.block_id ≢ id) blocks
not_new id [] metas known new = tt
not_new id (b ∷ blocks) metas known new =
    ((λ same. cc (new.0, known.1, same)), not_new id blocks metas known new.2)

-- The blocks that were there are read as before.
collect-old :
    (ids : List ℕ) (blocks : List BlockMeta) (metas : Map BlockMeta)
    → All (Known metas) ids
    → NewBlocks metas blocks
    → collect ids (add_metas blocks metas) ≡ collect ids metas
unfolding collect
collect-old [] blocks metas known new = refl
collect-old (id ∷ ids) blocks metas known new =
    let here = find-add_metas_ne id blocks metas (not_new id blocks metas known.0 new) in
    let rest = collect-old ids blocks metas known.1 new in ground (arith, here, rest)

collect-append :
    (ids ids' : List ℕ) (metas : Map BlockMeta)
    → collect (ids ++ ids') metas ≡ collect ids metas ++ collect ids' metas
unfolding collect
collect-append [] ids' metas = refl
collect-append (id ∷ ids) ids' metas = ground (arith, collect-append ids ids' metas)

-- Every block that a file lists has metadata.
abbrev pub IsComplete : BlockMap → Type 0
IsComplete m =
    (inode_id : ℕ) (ids : List ℕ)
    → Map.find inode_id m.inode_blocks ≡ some ids
    → All (Known m.block_metas) ids

ids_of-Known :
    (m : BlockMap) (inode_id : ℕ)
    → IsComplete m
    → All (Known m.block_metas) (ids_of inode_id m.inode_blocks)
ids_of-Known m inode_id complete = elim (Option-cases (Map.find inode_id m.inode_blocks)) [
  | inl missing ↦ rw (missing, ids_of) tt
  | inr (ids, listed) ↦ rw (listed, ids_of) (complete inode_id ids listed)
]

module _ (m : BlockMap) (complete : IsComplete m) (blocks : List BlockMeta)
    (new : NewBlocks m.block_metas blocks) where
  -- New blocks are appended to those of their file, in order.
  pub get_blocks-add_blocks :
      (inode_id : ℕ)
      → get_blocks (add_blocks m inode_id blocks).0 inode_id
        ≡ ok (collect (ids_of inode_id m.inode_blocks) m.block_metas ++ blocks)
  unfolding get_blocks add_blocks
  get_blocks-add_blocks inode_id =
      let ids = ids_of inode_id m.inode_blocks in
      let old = collect-old ids blocks m.block_metas (ids_of-Known m inode_id complete) new in
      let added = collect-new blocks m.block_metas new in
      rw (find-put_self, get_blocks)
        (ap ok (collect-append ids (map block_id_of blocks) _ ∙ rw (old, added)))

  -- The blocks of every other file stay as they were.
  pub get_blocks-add_blocks_ne :
      (inode_id other : ℕ)
      → inode_id ≢ other
      → get_blocks (add_blocks m inode_id blocks).0 other ≡ get_blocks m other
  unfolding get_blocks add_blocks
  get_blocks-add_blocks_ne inode_id other ne = elim (Option-cases (Map.find other m.inode_blocks)) [
    | inl missing ↦ ground (
      arith,
      find-put other inode_id (ids_of inode_id m.inode_blocks ++ map block_id_of blocks)
          m.inode_blocks,
    )
    | inr (ids, listed) ↦ ground (
      arith,
      find-put other inode_id (ids_of inode_id m.inode_blocks ++ map block_id_of blocks)
          m.inode_blocks,
      collect-old ids blocks m.block_metas (complete other ids listed) new,
    )
  ]

Known-put :
    (b : BlockMeta) (metas : Map BlockMeta) (id : ℕ)
    → Known metas id
    → Known (Map.put b.block_id b metas) id
Known-put b metas id (old, known) = elim (ℕ_discrete b.block_id id) [
  | yes same ↦ (b, ground (arith, find-put id b.block_id b metas, same))
  | no other ↦ (old, ground (arith, find-put id b.block_id b metas, other))
]

Known-add_metas :
    (blocks : List BlockMeta) (metas : Map BlockMeta) (id : ℕ)
    → Known metas id
    → Known (add_metas blocks metas) id
unfolding add_metas
Known-add_metas [] metas id known = known
Known-add_metas (b ∷ blocks) metas id known =
    Known-add_metas blocks (Map.put b.block_id b metas) id (Known-put b metas id known)

added-Known :
    (blocks : List BlockMeta) (metas : Map BlockMeta)
    → All (Known (add_metas blocks metas)) (map block_id_of blocks)
unfolding add_metas
added-Known [] metas = tt
added-Known (b ∷ blocks) metas = (
  Known-add_metas blocks (Map.put b.block_id b metas) b.block_id
      (b, find-put_self b.block_id b metas),
  added-Known blocks (Map.put b.block_id b metas),
)

-- AddBlocks keeps every block that the map lists provided with metadata, whatever blocks it is
-- given.
pub add_blocks-IsComplete :
    (m : BlockMap) (inode_id : ℕ) (blocks : List BlockMeta)
    → IsComplete m
    → IsComplete (add_blocks m inode_id blocks).0
unfolding add_blocks
add_blocks-IsComplete m inode_id blocks complete k ids h = elim (ℕ_discrete inode_id k) [
  | yes same ↦
      let now : ids_of inode_id m.inode_blocks ++ map block_id_of blocks ≡ ids = ground (
        arith,
        same,
        find-put k inode_id (ids_of inode_id m.inode_blocks ++ map block_id_of blocks)
            m.inode_blocks,
      ) in
      rw (← now) (
        All-append (Known (add_metas blocks m.block_metas)) (ids_of inode_id m.inode_blocks) _
          (All-map (Known m.block_metas) (Known (add_metas blocks m.block_metas)) _
            (Known-add_metas blocks m.block_metas) (ids_of-Known m inode_id complete))
          (added-Known blocks m.block_metas))
  | no other ↦
      All-map (Known m.block_metas) (Known (add_metas blocks m.block_metas)) ids
        (Known-add_metas blocks m.block_metas)
        (complete k ids (
          ground (
            arith,
            find-put k inode_id (ids_of inode_id m.inode_blocks ++ map block_id_of blocks)
                m.inode_blocks,
            other,
          )))
]

-- Two files that share no block.
abbrev pub Apart : List ℕ → List ℕ → Type 0
Apart ids removed = All (λ id. All (λ r. r ≢ id) removed) ids

find-erase_metas :
    (id : ℕ) (removed : List ℕ) (metas : Map BlockMeta)
    → All (λ r. r ≢ id) removed
    → Map.find id (erase_metas removed metas) ≡ Map.find id metas
unfolding erase_metas
find-erase_metas id [] metas ne = refl
find-erase_metas id (r ∷ removed) metas ne =
    let other = ne.0 in
    find-erase_metas id removed (Map.erase r metas) ne.1
    ∙ ground (arith, find-erase id r metas, other)

collect-erase_metas :
    (ids removed : List ℕ) (metas : Map BlockMeta)
    → Apart ids removed
    → collect ids (erase_metas removed metas) ≡ collect ids metas
unfolding collect
collect-erase_metas [] removed metas apart = refl
collect-erase_metas (id ∷ ids) removed metas apart =
    let here = find-erase_metas id removed metas apart.0 in
    let rest = collect-erase_metas ids removed metas apart.1 in ground (arith, here, rest)

-- RemoveBlocks forgets the blocks of its file, and leaves those of any other file that shares
-- none of them.
pub get_blocks-remove_blocks :
    (m : BlockMap) (inode_id other : ℕ)
    → inode_id ≢ other
    → Apart (ids_of other m.inode_blocks) (ids_of inode_id m.inode_blocks)
    → (get_blocks (remove_blocks m inode_id).0 inode_id ≡ err not_found)
      × (get_blocks (remove_blocks m inode_id).0 other ≡ get_blocks m other)
unfolding get_blocks remove_blocks
get_blocks-remove_blocks m inode_id other ne apart =
    elim (Option-cases (Map.find inode_id m.inode_blocks)) [
      | inl missing ↦ ground arith
      | inr (removed, listed) ↦ elim (Option-cases (Map.find other m.inode_blocks)) [
        | inl absent ↦ ground (
          arith,
          find-erase inode_id inode_id m.inode_blocks,
          find-erase other inode_id m.inode_blocks,
        )
        | inr (ids, theirs) ↦
            let apart' : Apart ids removed =
              subst₂ (λ (a b : List ℕ). Apart a b) (rw (theirs, ids_of)) (rw (listed, ids_of))
                apart in
            ground (
              arith,
              find-erase inode_id inode_id m.inode_blocks,
              find-erase other inode_id m.inode_blocks,
              collect-erase_metas ids removed m.block_metas apart',
            )
      ]
    ]
