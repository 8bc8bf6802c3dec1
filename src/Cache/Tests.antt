-- ===== src/Cache/Tests.antt =====
-- A small cache, and instances of the theorems about it.
use openfs.Common.{ℕ, ◌≤◌, ◌≡◌, List, [], ◌∷◌, some, ◌==◌, length, eqs, arith, refl}
use openfs.Types.{default_inode, Name}
use openfs.Cache.{
  CacheEntry, MetadataCache, hangs, get, put, find_key, erase_key, is_expired, evict, evict_paths,
  back_name, pop_back, put_inode, put_inode_by_path, get_inode_by_path, get_inode,
}
use openfs.Cache.Laws.{put-length, get-put, get-put-get}

caching : Unit {0}
unfolding get put find_key erase_key is_expired evict evict_paths back_name pop_back put_inode
    put_inode_by_path get_inode_by_path get_inode eqs
caching = tt

-- Two entries, which expire at 1000000009.
abbrev two : List (ℕ × CacheEntry ℕ)
two =
    (7, record { value = 70; version = 1; expire_time_ns = 1000000009 })
    ∷ (8, record { value = 80; version = 1; expire_time_ns = 1000000009 })
    ∷ []

evicts :
    put ◌==◌ two 2 1 9 90 1 9
    ≡ (9, record { value = 90; version = 1; expire_time_ns = 1000000009 })
      ∷ (7, record { value = 70; version = 1; expire_time_ns = 1000000009 })
      ∷ []
unfolding caching
evicts = refl

put-length_example : length (put ◌==◌ two 2 1 9 90 1 9) ≤ 2
put-length_example = put-length ◌==◌ 2 two 1 9 90 1 9 (omega arith)

get-put_example : (get ◌==◌ (put ◌==◌ two 2 1 9 90 1 9) 9 500).1 ≡ some 90
get-put_example =
    get-put ◌==◌ 2 1 two 9 90 1 9 500 (omega arith) (omega arith) refl (omega arith) (omega arith)

hit : (get ◌==◌ two 8 9).1 ≡ some 80
unfolding caching
hit = refl

get-put-get_example : (get ◌==◌ (put ◌==◌ (get ◌==◌ two 8 9).0 2 1 9 90 1 9) 8 9).1 ≡ some 80
get-put-get_example =
    get-put-get ◌==◌ 2 1 two 8 9 80 90 1 9 (omega arith) (omega arith) refl refl refl hit

abbrev empty : MetadataCache
empty = record {
  max_entries = 1;
  ttl_seconds = 30;
  inodes = [];
  path_to_inode = [];
  blocks = [];
  dirs = [];
}

abbrev path : Name
path = b'/' ∷ b'a' ∷ []

-- A path that was put cannot be asked for: the lookup takes the mutex twice.
stuck : get_inode_by_path (put_inode_by_path empty path default_inode 1 0) path ≡ hangs
unfolding caching
stuck = refl

-- When the inode is evicted, the path stays, as it is the name that is erased.
leftover :
    (put_inode (put_inode_by_path empty path default_inode 1 0) 5 default_inode 1 0).path_to_inode
    ≡ (path, 0) ∷ []
unfolding caching
leftover = refl
