-- ===== src/Meta/InodeTable.antt =====
-- src/meta/inode_table.h and inode_table.cpp: the table of inodes. Each method holds the table's
-- mutex from its start to its end, so a method is one step; the clock is an argument.
use openfs.Common.{ℕ, ◌+◌, ◌%◌, none, some, Bool, true, false, [], ◌∷◌, u64_mod}
use openfs.Common.Map
use openfs.Common.Map.{Map}
use openfs.Types.{Inode, Result, ok, err, already_exists, not_found, directory, default_inode}

pub record InodeTable : Type 0 where
  pub inodes : Map Inode
  pub next_inode_id : ℕ

-- `InodeTable()`: the root directory alone; 0755 is octal.
unfoldable pub init : ℕ → InodeTable
init now = record {
  inodes =
      (
        1,
        record default_inode {
          inode_id = 1;
          file_type = directory;
          mode = 0o755;
          nlink = 2;
          atime_ns = now;
          mtime_ns = now;
          ctime_ns = now;
          name = b'/' ∷ [];
        },
      )
      ∷ [];
  next_inode_id = 2;
}

unfoldable pub create : InodeTable → Inode → InodeTable × Result (Unit {0})
create t inode = elim (Map.find inode.inode_id t.inodes) [
  | some _ ↦ (t, err already_exists)
  | none ↦ (record t { inodes = Map.put inode.inode_id inode t.inodes }, ok tt)
]

unfoldable pub get : InodeTable → ℕ → Result Inode
get t inode_id = elim (Map.find inode_id t.inodes) [ none ↦ err not_found | some i ↦ ok i ]

unfoldable pub update : InodeTable → Inode → InodeTable × Result (Unit {0})
update t inode = elim (Map.find inode.inode_id t.inodes) [
  | none ↦ (t, err not_found)
  | some _ ↦ (record t { inodes = Map.put inode.inode_id inode t.inodes }, ok tt)
]

unfoldable pub delete : InodeTable → ℕ → InodeTable × Result (Unit {0})
delete t inode_id = elim (Map.find inode_id t.inodes) [
  | none ↦ (t, err not_found)
  | some _ ↦ (record t { inodes = Map.erase inode_id t.inodes }, ok tt)
]

unfoldable pub exists : InodeTable → ℕ → Bool
exists t inode_id = elim (Map.find inode_id t.inodes) [ none ↦ false | some _ ↦ true ]

unfoldable pub allocate_inode_id : InodeTable → ℕ × InodeTable
allocate_inode_id t =
    (t.next_inode_id, record t { next_inode_id = (t.next_inode_id + 1) % u64_mod })
