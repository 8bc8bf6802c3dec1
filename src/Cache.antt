-- ===== src/Cache.antt =====
-- src/client/metadata_cache.h and metadata_cache.cpp: the client's cache of inodes, of block
-- locations and of directories. A list of the least recently used and its index are one list of keys
-- and entries, the most recent first: the index holds an iterator to each element of the list, and
-- nothing else. Methods hold the mutex, so each is one step; a method that takes it twice never
-- returns. The clock is an argument.
mod Laws
mod Tests
use openfs.Common.{
  ℕ, zero, suc, ◌+◌, ◌*◌, ◌%◌, List, [], ◌∷◌, ◌++◌, Option, none, some, Bool, true, false, not,
  ◌&&◌, length, ltb, ◌==◌, eqs, if◌then◌else◌, u64_mod,
}
use openfs.Types.{Name, Inode, DirEntry, BlockMeta}

-- An entry of any of the three kinds; `valid` is written and never read.
pub record CacheEntry (V : Type 0) : Type 0 where
  pub value : V
  pub version : ℕ
  pub expire_time_ns : ℕ

unfoldable pub is_expired : {V : Type 0} → CacheEntry V → ℕ → Bool
is_expired e now = not (e.expire_time_ns == 0) && ltb e.expire_time_ns now

module _ {K V : Type 0} (same : K → K → Bool) where
  unfoldable pub find_key : K → List (K × V) → Option V
  find_key k [] = none
  find_key k ((j, v) ∷ entries) = if same j k then some v else find_key k entries

  unfoldable pub erase_key : K → List (K × V) → List (K × V)
  erase_key k [] = []
  erase_key k ((j, v) ∷ entries) =
      let rest = erase_key k entries in if same j k then entries else (j, v) ∷ rest

-- `pop_back`
unfoldable pub pop_back : {A : Type 0} → List A → List A
pop_back [] = []
pop_back (x ∷ []) = []
pop_back (x ∷ y ∷ xs) = x ∷ pop_back (y ∷ xs)

-- The loop that evicts, for the rounds left.
unfoldable pub evict : {A : Type 0} → ℕ → ℕ → List A → List A
evict zero max_entries entries = entries
evict (suc rounds) max_entries entries =
    let rest = evict rounds max_entries (pop_back entries) in
    if ltb max_entries (length entries) then rest else entries

-- The three caches have the same operations, on keys that are numbers or paths.
module _ {K V : Type 0} (same : K → K → Bool) where
  unfoldable pub get : List (K × CacheEntry V) → K → ℕ → List (K × CacheEntry V) × Option V
  get entries k now = elim (find_key same k entries) [
    | none ↦ (entries, none)
    | some e ↦
        if is_expired e now
        then (erase_key same k entries, none)
        else ((k, e) ∷ erase_key same k entries, some e.value)
  ]

  unfoldable pub put : List (K × CacheEntry V) → ℕ → ℕ → K → V → ℕ → ℕ → List (K × CacheEntry V)
  put entries max_entries ttl_seconds k value version now =
      let e : CacheEntry V = record {
        value = value;
        version = version;
        expire_time_ns = (now + ttl_seconds * 1000000000 % u64_mod) % u64_mod;
      } in
      elim (find_key same k entries) [
        | some _ ↦ (k, e) ∷ erase_key same k entries
        | none ↦ evict (suc (length entries)) max_entries ((k, e) ∷ entries)
      ]

  unfoldable pub invalidate : List (K × CacheEntry V) → K → List (K × CacheEntry V)
  invalidate entries k = erase_key same k entries

-- The members of `MetadataCache`.
pub record MetadataCache : Type 0 where
  pub max_entries : ℕ
  pub ttl_seconds : ℕ
  pub inodes : List (ℕ × CacheEntry Inode)
  pub path_to_inode : List (Name × ℕ)
  pub blocks : List (ℕ × CacheEntry (List BlockMeta))
  pub dirs : List (Name × CacheEntry (List DirEntry))

-- What a method comes to.
pub data Outcome {ℓ} (A : Type ℓ) : Type ℓ where
  returns : A → Outcome A
  hangs : Outcome A

unfoldable pub get_inode : MetadataCache → ℕ → ℕ → MetadataCache × Option Inode
get_inode c inode_id now =
    let (inodes, r) = get ◌==◌ c.inodes inode_id now in (record c { inodes = inodes }, r)

-- `GetInodeByPath` calls `GetInode` under the mutex that the latter takes.
unfoldable pub get_inode_by_path : MetadataCache → Name → Outcome (MetadataCache × Option Inode)
get_inode_by_path c path = elim (find_key eqs path c.path_to_inode) [
  | none ↦ returns (c, none)
  | some inode_id ↦ hangs
]

unfoldable pub back_name : List (ℕ × CacheEntry Inode) → Name
back_name [] = []
back_name ((id, e) ∷ []) = e.value.name
back_name ((id, e) ∷ f ∷ entries) = back_name (f ∷ entries)

-- The loop of `PutInode` that evicts: the path that is forgotten is the name of the inode.
unfoldable pub evict_paths : ℕ → ℕ → List (ℕ × CacheEntry Inode) → List (Name × ℕ) → List (Name × ℕ)
evict_paths zero max_entries entries paths = paths
evict_paths (suc rounds) max_entries entries paths =
    let rest =
      evict_paths rounds max_entries (pop_back entries) (erase_key eqs (back_name entries) paths) in
    if ltb max_entries (length entries) then rest else paths

unfoldable pub put_inode : MetadataCache → ℕ → Inode → ℕ → ℕ → MetadataCache
put_inode c inode_id inode version now =
    let inodes = put ◌==◌ c.inodes c.max_entries c.ttl_seconds inode_id inode version now in
    let e : CacheEntry Inode = record {
      value = inode;
      version = version;
      expire_time_ns = (now + c.ttl_seconds * 1000000000 % u64_mod) % u64_mod;
    } in
    let paths =
      evict_paths (suc (length c.inodes)) c.max_entries ((inode_id, e) ∷ c.inodes)
        c.path_to_inode in
    elim (find_key ◌==◌ inode_id c.inodes) [
      | some _ ↦ record c { inodes = inodes }
      | none ↦ record c { inodes = inodes; path_to_inode = paths }
    ]

unfoldable pub put_inode_by_path : MetadataCache → Name → Inode → ℕ → ℕ → MetadataCache
put_inode_by_path c path inode version now =
    let c' = put_inode c inode.inode_id inode version now in
    record c' { path_to_inode = (path, inode.inode_id) ∷ erase_key eqs path c'.path_to_inode }

unfoldable pub invalidate_inode : MetadataCache → ℕ → MetadataCache
invalidate_inode c inode_id = record c { inodes = invalidate ◌==◌ c.inodes inode_id }

unfoldable pub invalidate_inode_by_path : MetadataCache → Name → Outcome MetadataCache
invalidate_inode_by_path c path = elim (find_key eqs path c.path_to_inode) [
  | none ↦ returns c
  | some inode_id ↦ hangs
]

unfoldable pub get_block_locations : MetadataCache → ℕ → ℕ → MetadataCache × Option (List BlockMeta)
get_block_locations c inode_id now =
    let (blocks, r) = get ◌==◌ c.blocks inode_id now in (record c { blocks = blocks }, r)

unfoldable pub put_block_locations : MetadataCache → ℕ → List BlockMeta → ℕ → ℕ → MetadataCache
put_block_locations c inode_id locations version now = record c {
  blocks = put ◌==◌ c.blocks c.max_entries c.ttl_seconds inode_id locations version now;
}

unfoldable pub invalidate_block_locations : MetadataCache → ℕ → MetadataCache
invalidate_block_locations c inode_id = record c { blocks = invalidate ◌==◌ c.blocks inode_id }

unfoldable pub get_dir_entries : MetadataCache → Name → ℕ → MetadataCache × Option (List DirEntry)
get_dir_entries c path now =
    let (dirs, r) = get eqs c.dirs path now in (record c { dirs = dirs }, r)

unfoldable pub put_dir_entries : MetadataCache → Name → List DirEntry → ℕ → ℕ → MetadataCache
put_dir_entries c path entries version now = record c {
  dirs = put eqs c.dirs c.max_entries c.ttl_seconds path entries version now;
}

unfoldable pub invalidate_dir : MetadataCache → Name → MetadataCache
invalidate_dir c path = record c { dirs = invalidate eqs c.dirs path }

unfoldable pub clear : MetadataCache → MetadataCache
clear c = record c { inodes = []; path_to_inode = []; blocks = []; dirs = [] }

unfoldable pub size : MetadataCache → ℕ
size c = length c.inodes + length c.blocks + length c.dirs

unfoldable pub set_ttl_seconds : MetadataCache → ℕ → MetadataCache
set_ttl_seconds c seconds = record c { ttl_seconds = seconds }
