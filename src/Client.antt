-- ===== src/Client.antt =====
-- src/client/openfs_client.cpp, meta_connection.cpp and data_connection.cpp: writing and reading a
-- file. A connection copies the fields of a request and of the answer; what gRPC makes of a call is
-- an argument, its fate. The data nodes are those at an address; their service is an interface,
-- which openfs.Node fills.
mod Assembly
mod Sending
mod Storing
mod RoundTrip
mod SingleNode
mod Tests
use openfs.Common.{
  ℕ, zero, suc, ◌+◌, ◌-◌, ◌%◌, List, [], ◌∷◌, Option, none, some, Bool, true, false, length, take,
  drop, replicate, write_over, ltb, leb, ◌==◌, if◌then◌else◌, min, u32_mod, u64_mod,
}
use openfs.Common.Map
use openfs.Common.Map.{Map}
use openfs.Types.{
  Name, Inode, DirEntry, BlkLevel, BlockMeta, Result, ok, err, internal, not_found, crc_mismatch,
}
use openfs.Crc.{compute_crc32}
use openfs.Splitter.{BlockSlice, split}
use openfs.Meta.Namespace.{Owner}
use openfs.Meta.Service
use openfs.Meta.Service.{MetaService}

-- The data service of the nodes, by their address.
pub record DataNodes : Type 1 where
  pub State : Type 0
  pub write_block : State → Name → ℕ → List ℕ → ℕ → State × Result (ℕ × ℕ)
  pub read_block : State → Name → ℕ → ℕ → State × Result (List ℕ × ℕ)

-- A call may be carried out and answered, be lost before, or after it was carried out.
pub data Fate : Type 0 where
  delivered lost unanswered : Fate

unfoldable pub call {ℓ κ} : {S : Type ℓ} {A : Type κ} → Fate → S → S × Result A → S × Result A
call delivered s (s', r) = (s', r)
call lost s (s', r) = (s, err internal)
call unanswered s (s', r) = (s', err internal)

-- "localhost:8200"
abbrev pub default_addr : Name
default_addr =
    b'l' ∷ b'o' ∷ b'c' ∷ b'a' ∷ b'l' ∷ b'h' ∷ b'o' ∷ b's' ∷ b't' ∷ b':' ∷ b'8' ∷ b'2' ∷ b'0' ∷ b'0'
    ∷ []

-- `node_addr_cache_`: the address of a node, entered when it is not there.
unfoldable pub resolve_addr : Map Name → ℕ → Map Name × Name
resolve_addr cache node_id = elim (Map.find node_id cache) [
  | some addr ↦ (cache, addr)
  | none ↦ (Map.put node_id default_addr cache, default_addr)
]

-- The block as it is committed.
abbrev pub committed : BlockMeta → BlockSlice → ℕ → ℕ → BlockMeta
committed alloc slice segment_id offset = record alloc {
  segment_id = segment_id;
  offset = offset;
  size = slice.data_size;
  crc32 = slice.crc32;
}

-- One block into the buffer: `copy_size` bytes at `write_offset`, where they fit.
unfoldable pub assemble : ℕ → List ℕ → ℕ → List ℕ → List ℕ × ℕ
assemble size buffer write_offset piece =
    let copy_size = min (length piece) ((size + u64_mod - write_offset) % u64_mod) % u32_mod in
    let written = write_over 0 write_offset (take copy_size piece) buffer in
    let next = (write_offset + copy_size) % u64_mod in
    (if leb next (length buffer) then written else buffer, next)

-- The times that the servers read, and the fates of the calls.
pub record Circumstances : Type 0 where
  pub now : ℕ
  pub clock : ℕ → ℕ
  pub mtime : ℕ
  pub ctime : ℕ
  pub creating : Fate
  pub allocating : Fate
  pub committing : Fate
  pub writing : ℕ → Fate

-- The fates of the calls of `ReadFile`.
pub record Fates : Type 0 where
  pub informing : Fate
  pub locating : Fate
  pub reading : ℕ → Fate

module _ (n : DataNodes) where
  abbrev pub State : Type 0
  State = n.State

  -- A client, and the servers that it talks to.
  pub record System : Type 0 where
    pub initialized : Bool
    pub node_addr_cache : Map Name
    pub meta : MetaService
    pub nodes : State

  pub record Written : Type 0 where
    pub cache : Map Name
    pub nodes : State
    pub result : Result (List BlockMeta)

  -- The loop of `WriteFile` over the allocated blocks and the slices; block `i` is next, and its
  -- call has the fate `net i`.
  unfoldable pub write_blocks :
      (ℕ → Fate) → Map Name → State → List ℕ → ℕ → List BlockMeta → List BlockSlice → Written
  write_blocks net cache nodes bytes i [] slices = record {
    cache = cache;
    nodes = nodes;
    result = ok [];
  }
  write_blocks net cache nodes bytes i (a ∷ allocated) [] = record {
    cache = cache;
    nodes = nodes;
    result = ok [];
  }
  write_blocks net cache nodes bytes i (a ∷ allocated) (s ∷ slices) =
      let (cache', addr) = resolve_addr cache a.node_id in
      let piece = take s.data_size (drop s.file_offset bytes) in
      let (nodes', r) = call (net i) nodes (n.write_block nodes addr a.block_id piece s.crc32) in
      let rest = write_blocks net cache' nodes' bytes (i + 1) allocated slices in
      elim r [
        | err e ↦ record { cache = cache'; nodes = nodes'; result = err e }
        | ok (segment_id, offset) ↦ record rest {
          result = elim rest.result [
            | err e ↦ err e
            | ok blocks ↦ ok (committed a s segment_id offset ∷ blocks)
          ];
        }
      ]

  unfoldable pub commit_file :
      System → Circumstances → ℕ → List BlockMeta → System × Result (Unit {0})
  commit_file s c inode_id blocks =
      let (meta, r) =
        call c.committing s.meta (Service.commit_blocks s.meta inode_id blocks c.mtime c.ctime) in
      (record s { meta = meta }, r)

  -- `WriteFile` from the allocation on.
  unfoldable pub store_file :
      System → Circumstances → List ℕ → ℕ → List BlockSlice → BlkLevel → System × Result (Unit {0})
  store_file s c bytes inode_id slices level =
      let (meta, r) =
        call c.allocating s.meta
          (Service.allocate_blocks s.meta (length slices % u32_mod) level c.clock) in
      let s' : System = record s { meta = meta } in
      elim r [
        | err e ↦ (s', err e)
        | ok allocated ↦
            let w = write_blocks c.writing s.node_addr_cache s.nodes bytes 0 allocated slices in
            let sent : System = record s' { node_addr_cache = w.cache; nodes = w.nodes } in
            if length allocated == length slices
            then elim w.result [
              | err e ↦ (sent, err e)
              | ok blocks ↦ commit_file sent c inode_id blocks
            ]
            else (s', err internal)
      ]

  unfoldable pub write_file :
      System → Circumstances → Name → ℕ → List ℕ → System × Result (Unit {0})
  write_file s c path mode bytes =
      let owner : Owner = record { mode = mode; uid = 0; gid = 0 } in
      let (meta, r) =
        call c.creating s.meta (Service.create_fs_file s.meta path owner (length bytes) c.now) in
      let s' : System = record s { meta = meta } in
      if s.initialized
      then elim r [
        | err e ↦ (s', err e)
        | ok inode ↦
            if length bytes == 0 then (s', ok tt) else elim (split (length bytes) (some bytes)) [
              | [] ↦ (s', err internal)
              | slice ∷ slices ↦ store_file s' c bytes inode.inode_id (slice ∷ slices) slice.level
            ]
      ]
      else (s, err internal)

  pub record Read : Type 0 where
    pub cache : Map Name
    pub nodes : State
    pub result : Result (List ℕ)

  -- The loop of `ReadFile`.
  unfoldable pub read_blocks :
      (ℕ → Fate) → Map Name → State → ℕ → List ℕ → ℕ → ℕ → List BlockMeta → Read
  read_blocks net cache nodes size buffer write_offset i [] = record {
    cache = cache;
    nodes = nodes;
    result = ok buffer;
  }
  read_blocks net cache nodes size buffer write_offset i (b ∷ blocks) =
      let (cache', addr) = resolve_addr cache b.node_id in
      let (nodes', r) = call (net i) nodes (n.read_block nodes addr b.segment_id b.offset) in
      let piece : List ℕ = elim r [ err e ↦ [] | ok (piece, crc) ↦ piece ] in
      let (buffer', next) = assemble size buffer write_offset piece in
      let rest = read_blocks net cache' nodes' size buffer' next (i + 1) blocks in
      elim r [
        | err e ↦ record { cache = cache'; nodes = nodes'; result = err e }
        | ok (piece, crc) ↦
            if compute_crc32 piece == crc
            then rest
            else record { cache = cache'; nodes = nodes'; result = err crc_mismatch }
      ]

  unfoldable pub load_file : System → Fates → Inode → System × Result (List ℕ)
  load_file s f inode =
      elim (call f.locating s.meta (s.meta, Service.get_block_locations s.meta inode.inode_id)).1 [
        | err e ↦ (s, err e)
        | ok [] ↦ (s, err not_found)
        | ok (b ∷ blocks) ↦
            let r =
              read_blocks f.reading s.node_addr_cache s.nodes inode.size (replicate inode.size 0) 0
                0 (b ∷ blocks) in
            (record s { node_addr_cache = r.cache; nodes = r.nodes }, r.result)
      ]

  unfoldable pub read_file : System → Fates → Name → System × Result (List ℕ)
  read_file s f path =
      if s.initialized
      then elim (call f.informing s.meta (s.meta, Service.get_file_info s.meta path)).1 [
        | err e ↦ (s, err e)
        | ok inode ↦ if inode.size == 0 then (s, ok []) else load_file s f inode
      ]
      else (s, err internal)

  -- A request that goes to the metadata server alone.
  abbrev ask_meta : {A : Type 0} → System → Fate → MetaService × Result A → System × Result A
  ask_meta s fate answer =
      let (meta, r) = call fate s.meta answer in
      if s.initialized then (record s { meta = meta }, r) else (s, err internal)

  unfoldable pub create_file : System → Fate → Name → ℕ → ℕ → ℕ → System × Result Inode
  create_file s fate path mode file_size now =
      ask_meta s fate (
        Service.create_fs_file s.meta path (record { mode = mode; uid = 0; gid = 0 }) file_size now)

  unfoldable pub delete_file : System → Fate → Name → System × Result (Unit {0})
  delete_file s fate path = ask_meta s fate (Service.remove_fs_file s.meta path)

  unfoldable pub get_file_info : System → Fate → Name → System × Result Inode
  get_file_info s fate path = ask_meta s fate (s.meta, Service.get_file_info s.meta path)

  unfoldable pub rename : System → Fate → Name → Name → ℕ → System × Result (Unit {0})
  rename s fate src dst now = ask_meta s fate (Service.rename s.meta src dst now)

  unfoldable pub mkdir : System → Fate → Name → ℕ → ℕ → System × Result Inode
  mkdir s fate path mode now =
      ask_meta s fate (Service.mkdir s.meta path (record { mode = mode; uid = 0; gid = 0 }) now)

  unfoldable pub read_dir : System → Fate → Name → System × Result (List DirEntry)
  read_dir s fate path = ask_meta s fate (s.meta, Service.read_dir s.meta path)

  unfoldable pub rmdir : System → Fate → Name → System × Result (Unit {0})
  rmdir s fate path = ask_meta s fate (Service.rmdir s.meta path)
