-- ===== src/Client/Storing.antt =====
-- What a WriteFile that succeeds has done.
use openfs.Common.{
  ℕ, ◌%◌, ◌<◌, ◌≡◌, List, [], ◌∷◌, some, true, length, u32_mod, arith, refl, ◌⊎◌, inl, inr,
  Bool-cases, ◌==◌,
}
use openfs.Types.{Name, BlkLevel, BlockMeta, Inode, Result, Result-cases, ok}
use openfs.Splitter.{BlockSlice, split}
use openfs.Meta.Service.{MetaService, allocate_blocks, commit_blocks, create_fs_file}
use openfs.Meta.Namespace.{Owner}
use openfs.Client
use openfs.Client.{
  DataNodes, Fate, delivered, call, System, Circumstances, Fates, write_blocks, commit_file,
  store_file, write_file, read_blocks, load_file, read_file,
}
use openfs.Client.Sending.{call_ok}

List-cases : {A : Type 0} (xs : List A) → (xs ≡ []) ⊎ ((y : A) × (ys : List A) × (xs ≡ y ∷ ys))
List-cases [] = inl refl
List-cases (y ∷ ys) = inr (y, ys, refl)

abbrev pub owner_of : ℕ → Owner
owner_of mode = record { mode = mode; uid = 0; gid = 0 }

module _ (n : DataNodes) (s : System n) (c : Circumstances) where
  abbrev pub allocation : ℕ → BlkLevel → MetaService × Result (List BlockMeta)
  allocation count level = allocate_blocks s.meta count level c.clock

  abbrev pub sending : List ℕ → List BlockMeta → List BlockSlice → Client.Written n
  sending bytes allocated slices =
      write_blocks n c.writing s.node_addr_cache s.nodes bytes 0 allocated slices

  -- What storing a file comes to, when it goes well.
  pub store_file_lem :
      (bytes : List ℕ) (inode_id : ℕ) (slices : List BlockSlice) (level : BlkLevel)
      → (store_file n s c bytes inode_id slices level).1 ≡ ok tt
      → let a = allocation (length slices % u32_mod) level in
        (allocated : List BlockMeta) × (blocks : List BlockMeta) × (a.1 ≡ ok allocated)
        × (length allocated ≡ length slices)
        × ((sending bytes allocated slices).result ≡ ok blocks)
        × ((store_file n s c bytes inode_id slices level).0 ≡ record s {
          meta = (commit_blocks a.0 inode_id blocks c.mtime c.ctime).0;
          node_addr_cache = (sending bytes allocated slices).cache;
          nodes = (sending bytes allocated slices).nodes;
        })
  unfolding store_file commit_file
  store_file_lem bytes inode_id slices level done =
      let a = allocation (length slices % u32_mod) level in
      elim (Result-cases (call c.allocating s.meta a).1) [
        | inl (e, failed) ↦ ground (arith, failed)
        | inr (allocated, answered) ↦
            let (carried, given) = call_ok c.allocating s.meta a allocated answered in
            elim (Bool-cases (length allocated == length slices)) [
              | inr differs ↦ ground (arith, answered, differs)
              | inl same ↦ elim (Result-cases (sending bytes allocated slices).result) [
                | inl (e, failed) ↦ ground (arith, answered, same, failed)
                | inr (blocks, went) ↦
                    let commit = commit_blocks a.0 inode_id blocks c.mtime c.ctime in
                    elim (Result-cases (call c.committing a.0 commit).1) [
                      | inl (e, failed) ↦ ground (arith, answered, carried, same, went, failed)
                      | inr (x, answered') ↦
                          let (carried', _) = call_ok c.committing a.0 commit x answered' in
                          (
                            allocated,
                            blocks,
                            given,
                            ground (arith, same),
                            went,
                            ground (arith, carried, given, same, went, carried'),
                          )
                    ]
              ]
            ]
      ]

  abbrev pub creation : Name → ℕ → List ℕ → MetaService × Result Inode
  creation path mode bytes = create_fs_file s.meta path (owner_of mode) (length bytes) c.now

  abbrev pub created : Name → ℕ → List ℕ → System n
  created path mode bytes = record s { meta = (creation path mode bytes).0 }

  -- What writing a file comes to, when it goes well.
  pub write_file_lem :
      (path : Name) (mode : ℕ) (bytes : List ℕ)
      → (write_file n s c path mode bytes).1 ≡ ok tt
      → (inode : Inode) × ((creation path mode bytes).1 ≡ ok inode)
        × (s.initialized ≡ true)
        × (((length bytes ≡ 0) × ((write_file n s c path mode bytes).0 ≡ created path mode bytes))
            ⊎ ((slice : BlockSlice) × (slices : List BlockSlice) × (0 < length bytes)
                × (split (length bytes) (some bytes) ≡ slice ∷ slices)
                × (write_file n s c path mode bytes
                    ≡ store_file n
                        (created path mode bytes)
                        c
                        bytes
                        inode.inode_id
                        (slice ∷ slices)
                        slice.level)))
  unfolding write_file
  write_file_lem path mode bytes done =
      let a = creation path mode bytes in
      elim (Bool-cases s.initialized) [
        | inr not_ready ↦ ground (arith, not_ready)
        | inl ready ↦ elim (Result-cases (call c.creating s.meta a).1) [
          | inl (e, failed) ↦ ground (arith, failed, ready)
          | inr (inode, answered) ↦
              let (carried, given) = call_ok c.creating s.meta a inode answered in
              elim (Bool-cases (length bytes == 0)) [
                | inl empty ↦ (
                  inode,
                  given,
                  ready,
                  inl (ground (arith, empty), ground (arith, ready, carried, given, empty)),
                )
                | inr full ↦ elim (List-cases (split (length bytes) (some bytes))) [
                  | inl nothing ↦ ground (arith, ready, answered, full, nothing)
                  | inr (slice, slices, cut) ↦ (
                    inode,
                    given,
                    ready,
                    inr (
                      slice,
                      slices,
                      ground (arith, full),
                      cut,
                      ground (arith, ready, carried, given, full, cut),
                    ),
                  )
                ]
              ]
        ]
      ]
