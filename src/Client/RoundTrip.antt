-- ===== src/Client/RoundTrip.antt =====
-- A file that WriteFile stored is what ReadFile gives.
use openfs.Common.{
  ℕ, ◌+◌, ◌-◌, ◌%◌, ◌^◌, ◌<◌, ◌≤◌, ◌≡◌, List, [], ◌∷◌, some, true, false, length, replicate,
  u32_mod, u64_mod, arith, refl, ap, sym, ◌∙◌, subst, inl, inr,
}
use openfs.Types.{Name, BlkLevel, BlockMeta, Inode, Result, ok, select_block_level}
use openfs.Splitter.{BlockSlice, split}
use openfs.Meta.Service.{
  commit_blocks, create_fs_file, get_file_info, get_block_locations, total_size,
}
use openfs.Meta.Path.{is_root}
use openfs.Meta.Service.Files.{
  Ready, created-IsValid, allocate_blocks-below, get_file_info-create_fs_file,
  get_block_locations-committed, get_file_info-committed,
}
use openfs.Splitter.Slices.{Covers, split_with_level-Covers}
use openfs.Client.{
  DataNodes, delivered, call, System, Circumstances, Fates, write_file, read_blocks, load_file,
  read_file,
}
use openfs.Client.Assembly.{ServesBlocks, Defaults, Filled, read_blocks-Filled}
use openfs.Client.Sending.{Sent, write_blocks-Sent}
use openfs.Client.Storing.{
  owner_of, allocation, sending, store_file_lem, creation, created, write_file_lem,
}

-- Nothing is lost on the way.
pub record Arrives (f : Fates) : Type 0 where
  pub informed : f.informing ≡ delivered
  pub located : f.locating ≡ delivered
  pub read : (k : ℕ) → f.reading k ≡ delivered

module _ (n : DataNodes) (law : ServesBlocks n) where
  Filled-le :
      (st : n.State) (bytes : List ℕ) (from to : ℕ) (blocks : List BlockMeta)
      → Filled n law st bytes from to blocks
      → from ≤ to
  Filled-le st bytes from to [] e = omega (arith, e)
  Filled-le st bytes from to (b ∷ blocks) (_, _, _, fits, rest) =
      omega (arith, Filled-le st bytes (from + b.size) to blocks rest)

  -- The sizes of the blocks add up.
  Filled-total_size :
      (st : n.State) (bytes : List ℕ) (from to total : ℕ) (blocks : List BlockMeta)
      → total + to < u64_mod + from
      → Filled n law st bytes from to blocks
      → total_size total blocks + from ≡ total + to
  unfolding total_size
  Filled-total_size st bytes from to total [] small e = omega (arith, e)
  Filled-total_size st bytes from to total (b ∷ blocks) small (_, _, _, fits, rest) =
      let le = Filled-le st bytes (from + b.size) to blocks rest in
      let sum : (total + b.size) % u64_mod ≡ total + b.size = omega (arith, small, fits) in
      let ih =
        Filled-total_size st bytes (from + b.size) to (total + b.size) blocks (omega (arith, small))
          rest in
      omega (arith, ap (λ (k : ℕ). total_size k blocks) sum, ih)

  -- A client and servers between requests.
  pub record IsReady (s : System n) : Type 0 where
    pub meta_ready : Ready s.meta
    pub nodes_valid : law.Valid s.nodes
    pub defaults : Defaults s.node_addr_cache

  read_file_empty :
      (s : System n) (f : Fates) (path : Name) (inode : Inode)
      → Arrives f
      → s.initialized ≡ true
      → get_file_info s.meta path ≡ ok inode
      → inode.size ≡ 0
      → (read_file n s f path).1 ≡ ok []
  unfolding read_file call
  read_file_empty s f path inode a ready found empty =
      ground (arith, a.informed, ready, found, empty)

  read_file_full :
      (s : System n) (f : Fates) (path : Name) (inode : Inode) (b : BlockMeta)
      (blocks : List BlockMeta)
      → Arrives f
      → s.initialized ≡ true
      → get_file_info s.meta path ≡ ok inode
      → 0 < inode.size
      → get_block_locations s.meta inode.inode_id ≡ ok (b ∷ blocks)
      → (read_file n s f path).1
        ≡ (read_blocks n f.reading s.node_addr_cache s.nodes inode.size
            (replicate inode.size 0)
            0
            0
            (b ∷ blocks)).result
  unfolding read_file load_file call
  read_file_full s f path inode b blocks a ready found full located =
      ground (arith, a.informed, a.located, ready, found, full, located)

length_zero : (xs : List ℕ) → length xs ≡ 0 → [] ≡ xs
length_zero [] e = refl
length_zero (x ∷ xs) e = absurd (omega (arith, e))

split-Covers :
    (bytes : List ℕ) (slices : List BlockSlice)
    → 0 < length bytes
    → length bytes ≤ 2 ^ 47
    → split (length bytes) (some bytes) ≡ slices
    → Covers (select_block_level (length bytes)) (some bytes) 0 (length bytes) slices
unfolding split
split-Covers bytes slices full small cut =
    subst
      (λ (ss : List BlockSlice).
        Covers (select_block_level (length bytes)) (some bytes) 0 (length bytes) ss)
      cut
      (split_with_level-Covers (length bytes) (select_block_level (length bytes)) (some bytes) full
        small)

-- Reading a file whose blocks the nodes hold.
read_located :
    (n : DataNodes) (law : ServesBlocks n) (s : System n) (f : Fates) (path : Name) (inode : Inode)
    (blocks : List BlockMeta) (bytes : List ℕ)
    → Arrives f
    → s.initialized ≡ true
    → get_file_info s.meta path ≡ ok inode
    → inode.size ≡ length bytes
    → 0 < length bytes
    → get_block_locations s.meta inode.inode_id ≡ ok blocks
    → Defaults s.node_addr_cache
    → law.Valid s.nodes
    → length bytes < 2 ^ 48
    → Filled n law s.nodes bytes 0 (length bytes) blocks
    → (read_file n s f path).1 ≡ ok bytes
read_located n law s f path inode [] bytes a ready found size full located d v small filled =
    absurd (omega (arith, full, filled))
read_located n law s f path inode (b ∷ blocks) bytes a ready found size full located d v small
      filled =
    let whole : inode.size ≡ length bytes - 0 = omega (arith, size) in
    read_file_full n law s f path inode b blocks a ready found (omega (arith, size, full)) located
    ∙ ap
        (λ (k : ℕ).
          (read_blocks n f.reading s.node_addr_cache s.nodes k (replicate inode.size 0) 0 0
            (b ∷ blocks)).result)
        size
    ∙ ap
        (λ (k : ℕ).
          (read_blocks n f.reading s.node_addr_cache s.nodes (length bytes) (replicate k 0) 0 0
            (b ∷ blocks)).result)
        whole
    ∙ read_blocks-Filled n law f.reading s.node_addr_cache s.nodes bytes 0 0 (b ∷ blocks) a.read d v
        small (omega arith) filled

module _ (n : DataNodes) (law : ServesBlocks n) (s : System n) (c : Circumstances) (path : Name)
    (mode : ℕ) (bytes : List ℕ) (f : Fates) (r : IsReady n law s) (other : is_root path ≡ false)
    (small : length bytes ≤ 2 ^ 47)
    (ids_left : s.meta.block_allocator.next_block_id + 2 ^ 32 < u64_mod) (a : Arrives f)
    (inode : Inode) (made : (creation n s c path mode bytes).1 ≡ ok inode)
    (initialized : s.initialized ≡ true) where
  abbrev s' : System n
  s' = created n s c path mode bytes

  read_back_empty : length bytes ≡ 0 → (read_file n s' f path).1 ≡ ok bytes
  read_back_empty empty =
      let (found, sized) =
        get_file_info-create_fs_file s.meta path (owner_of mode) (length bytes) c.now inode
          r.meta_ready other made in
      read_file_empty n law s' f path inode a initialized found (sized ∙ empty)
      ∙ ap (λ (t : List ℕ). ok t) (length_zero bytes empty)

  module _ (slices : List BlockSlice) (full : 0 < length bytes)
      (cut : split (length bytes) (some bytes) ≡ slices) (level : BlkLevel)
      (allocated blocks : List BlockMeta)
      (given : (allocation n s' c (length slices % u32_mod) level).1 ≡ ok allocated)
      (same : length allocated ≡ length slices)
      (went : (sending n s' c bytes allocated slices).result ≡ ok blocks) where
    abbrev count : ℕ
    count = length slices % u32_mod

    abbrev stored : System n
    stored = record s' {
      meta =
          (commit_blocks (allocation n s' c count level).0 inode.inode_id blocks c.mtime c.ctime).0;
      node_addr_cache = (sending n s' c bytes allocated slices).cache;
      nodes = (sending n s' c bytes allocated slices).nodes;
    }

    enough_ids : s.meta.block_allocator.next_block_id + count < u64_mod
    enough_ids = omega (arith, ids_left)

    sent :
        Sent n law s.nodes
          (sending n s' c bytes allocated slices)
          bytes
          0
          (length bytes)
          allocated
          blocks
    unfolding create_fs_file
    sent =
        let below =
          allocate_blocks-below s'.meta count level c.clock allocated
            (created-IsValid s.meta path (owner_of mode) (length bytes) c.now inode r.meta_ready
              other made)
            enough_ids given in
        write_blocks-Sent n law c.writing s.node_addr_cache s.nodes bytes
          (select_block_level (length bytes)) 0 allocated slices blocks
          (split-Covers bytes slices full small cut) same below r.defaults r.nodes_valid went

    read_back_stored : (read_file n stored f path).1 ≡ ok bytes
    read_back_stored =
        let m = s.meta in
        let owner = owner_of mode in
        let located =
          get_block_locations-committed m path owner (length bytes) c.now inode r.meta_ready other
            made count level c.clock allocated blocks c.mtime c.ctime given enough_ids
            sent.same_ids in
        let found =
          get_file_info-committed m path owner (length bytes) c.now inode r.meta_ready other made
            count level c.clock allocated blocks c.mtime c.ctime given enough_ids sent.same_ids in
        let size : total_size 0 blocks ≡ length bytes = omega (
          arith,
          Filled-total_size n law stored.nodes bytes 0 (length bytes) 0 blocks
              (omega (arith, small)) sent.filled,
        ) in
        read_located n law stored f path _ blocks bytes a initialized found size full located
          sent.defaults sent.valid (omega (arith, small)) sent.filled

-- On data nodes that keep the contract of a block service, when WriteFile of up to 2^47 bytes at
-- a path other than the root succeeds, whatever became of its calls, ReadFile of this path gives
-- these bytes, if no call of it is lost; before the write the metadata and the data nodes are
-- valid, the addresses that the client keeps are the default one, and 2^32 block ids are left.
pub read_file-write_file :
    (n : DataNodes) (law : ServesBlocks n) (s : System n) (c : Circumstances) (path : Name)
    (mode : ℕ) (bytes : List ℕ) (f : Fates)
    → IsReady n law s
    → is_root path ≡ false
    → length bytes ≤ 2 ^ 47
    → s.meta.block_allocator.next_block_id + 2 ^ 32 < u64_mod
    → (write_file n s c path mode bytes).1 ≡ ok tt
    → Arrives f
    → (read_file n (write_file n s c path mode bytes).0 f path).1 ≡ ok bytes
read_file-write_file n law s c path mode bytes f r other small ids_left done a =
    let (inode, made, ready, outcome) = write_file_lem n s c path mode bytes done in
    elim outcome [
      | inl (empty, last) ↦
          ap (λ (x : System n). (read_file n x f path).1) last
          ∙ read_back_empty n law s c path mode bytes f r other small ids_left a inode made ready
              empty
      | inr (slice, slices, full, cut, same) ↦
          let s' = created n s c path mode bytes in
          let (allocated, blocks, given, sizes, went, last) =
            store_file_lem n s' c bytes inode.inode_id (slice ∷ slices) slice.level
              (sym (ap (λ (x : System n × Result (Unit {0})). x.1) same) ∙ done) in
          ap (λ (x : System n × Result (Unit {0})). (read_file n x.0 f path).1) same
          ∙ ap (λ (x : System n). (read_file n x f path).1) last
          ∙ read_back_stored n law s c path mode bytes f r other small ids_left a inode made ready
              (slice ∷ slices) full cut slice.level allocated blocks given sizes went
    ]
