-- ===== src/Meta/Namespace.antt =====
-- src/meta/namespace_manager.h and namespace_manager.cpp: the directory tree. Each method holds the
-- manager's mutex from its start to its end, so a method is one step. The clock (`NowNs`) is an
-- argument, and the inode table is part of the state.
pub mod Entries
pub mod Consistency
pub mod Preservation
pub mod Renaming
pub mod History
pub mod Lookups
pub mod Creation
use openfs.Common.{
  ℕ, List, [], ◌∷◌, ◌++◌, Option, none, some, Bool, true, false, ◌&&◌, not, if◌then◌else◌, eqs,
  find_first, erase_first,
}
use openfs.Common.Map
use openfs.Common.Map.{Map}
use openfs.Types.{
  Name, DirEntry, Inode, InodeType, regular, directory, default_inode, Status, Result, ok, err,
  ◌>>=◌, not_found, already_exists, invalid_argument, not_directory, not_empty, select_block_level,
}
use openfs.Meta.InodeTable
use openfs.Meta.InodeTable.{InodeTable}
use openfs.Meta.Path.{Dirs, is_directory, named, directory_named, file_named, is_root, resolve_path}

pub record Namespace : Type 0 where
  pub dir_entries : Dirs
  pub inode_table : InodeTable

-- `NamespaceManager(inode_table)`, over a new table.
unfoldable pub init : ℕ → Namespace
init now = record { dir_entries = (1, []) ∷ []; inode_table = InodeTable.init now }

-- The owner and the permissions that a request carries.
pub record Owner : Type 0 where
  pub mode : ℕ
  pub uid : ℕ
  pub gid : ℕ

unfoldable pub lookup : Namespace → Name → Result Inode
lookup ns path = if is_root path then InodeTable.get ns.inode_table 1 else do
  (parent, filename) ← resolve_path ns.dir_entries path
  elim (Map.find parent ns.dir_entries) [
    | none ↦ err not_found
    | some entries ↦ elim (find_first (named filename) entries) [
      | none ↦ err not_found
      | some entry ↦ InodeTable.get ns.inode_table entry.inode_id
    ]
  ]

-- `dir_entries_[id]`, which makes an empty list where there is none.
abbrev pub entries_of : ℕ → Dirs → List DirEntry
entries_of id dirs = elim (Map.find id dirs) [ none ↦ [] | some entries ↦ entries ]

abbrev pub new_directory : ℕ → ℕ → Name → Owner → ℕ → Inode
new_directory id parent name owner now = record default_inode {
  inode_id = id;
  file_type = directory;
  mode = owner.mode;
  uid = owner.uid;
  gid = owner.gid;
  nlink = 2;
  parent_id = parent;
  name = name;
  atime_ns = now;
  mtime_ns = now;
  ctime_ns = now;
}

abbrev pub new_file : ℕ → ℕ → Name → Owner → ℕ → ℕ → Inode
new_file id parent name owner file_size now = record default_inode {
  inode_id = id;
  file_type = regular;
  mode = owner.mode;
  uid = owner.uid;
  gid = owner.gid;
  size = file_size;
  nlink = 1;
  parent_id = parent;
  name = name;
  block_level = select_block_level file_size;
  atime_ns = now;
  mtime_ns = now;
  ctime_ns = now;
}

abbrev pub entry_for : Inode → DirEntry
entry_for i = record { name = i.name; inode_id = i.inode_id; file_type = i.file_type }

-- MkDir once the parent and the name are known and the name is free: from `AllocateInodeId` on.
unfoldable pub add_directory : Namespace → ℕ → Name → Owner → ℕ → Namespace × Result Inode
add_directory ns parent name owner now =
    let (id, table) = InodeTable.allocate_inode_id ns.inode_table in
    let inode = new_directory id parent name owner now in
    let (table', created) = InodeTable.create table inode in
    elim created [
      | err s ↦ (record ns { inode_table = table' }, err s)
      | ok _ ↦
          let dirs =
            Map.put parent (entries_of parent ns.dir_entries ++ entry_for inode ∷ [])
              ns.dir_entries in
          (record { dir_entries = Map.put id [] dirs; inode_table = table' }, ok inode)
    ]

unfoldable pub mkdir : Namespace → Name → Owner → ℕ → Namespace × Result Inode
mkdir ns path owner now = elim (resolve_path ns.dir_entries path) [
  | err s ↦ (ns, err s)
  | ok (parent, name) ↦
      if eqs name []
      then (ns, err already_exists)
      else elim (find_first (named name) (entries_of parent ns.dir_entries)) [
        | some _ ↦ (ns, err already_exists)
        | none ↦ add_directory ns parent name owner now
      ]
]

-- ReadDir once the inode of the directory is known.
unfoldable pub read_entries : Namespace → ℕ → Result (List DirEntry)
read_entries ns id = elim (Map.find id ns.dir_entries) [
  | none ↦ err not_directory
  | some entries ↦ ok entries
]

unfoldable pub read_dir : Namespace → Name → Result (List DirEntry)
unfolding read_entries
read_dir ns path =
    if is_root path
    then (do root ← InodeTable.get ns.inode_table 1; read_entries ns root.inode_id)
    else do
      (parent, dirname) ← resolve_path ns.dir_entries path
      elim (Map.find parent ns.dir_entries) [
        | none ↦ err not_found
        | some entries ↦ elim (find_first (named dirname) entries) [
          | none ↦ err not_found
          | some entry ↦
              if is_directory entry.file_type
              then read_entries ns entry.inode_id
              else err not_directory
        ]
      ]

-- `cit != dir_entries_.end() && !cit->second.empty()`
abbrev pub has_children : ℕ → Dirs → Bool
has_children id dirs = elim (entries_of id dirs) [ [] ↦ false | e ∷ es ↦ true ]

unfoldable pub rmdir : Namespace → Name → Namespace × Result (Unit {0})
rmdir ns path =
    if is_root path then (ns, err invalid_argument) else elim (resolve_path ns.dir_entries path) [
      | err s ↦ (ns, err s)
      | ok (parent, dirname) ↦ elim (Map.find parent ns.dir_entries) [
        | none ↦ (ns, err not_found)
        | some entries ↦ elim (find_first (directory_named dirname) entries) [
          | none ↦ (ns, err not_found)
          | some entry ↦
              if has_children entry.inode_id ns.dir_entries then (ns, err not_empty) else (
                record {
                  dir_entries = Map.erase entry.inode_id (
                      Map.put parent (erase_first (directory_named dirname) entries)
                        ns.dir_entries);
                  inode_table = (InodeTable.delete ns.inode_table entry.inode_id).0;
                },
                ok tt,
              )
        ]
      ]
    ]

-- CreateFile from `AllocateInodeId` on.
unfoldable pub add_file :
    Namespace → ℕ → List DirEntry → Name → Owner → ℕ → ℕ → Namespace × Result Inode
add_file ns parent entries name owner file_size now =
    let (id, table) = InodeTable.allocate_inode_id ns.inode_table in
    let inode = new_file id parent name owner file_size now in
    let (table', created) = InodeTable.create table inode in
    elim created [
      | err s ↦ (record ns { inode_table = table' }, err s)
      | ok _ ↦ (
        record {
          dir_entries = Map.put parent (entries ++ entry_for inode ∷ []) ns.dir_entries;
          inode_table = table';
        },
        ok inode,
      )
    ]

unfoldable pub create_file : Namespace → Name → Owner → ℕ → ℕ → Namespace × Result Inode
create_file ns path owner file_size now = elim (resolve_path ns.dir_entries path) [
  | err s ↦ (ns, err s)
  | ok (parent, name) ↦ elim (Map.find parent ns.dir_entries) [
    | none ↦ (ns, err not_found)
    | some entries ↦ elim (find_first (named name) entries) [
      | some _ ↦ (ns, err already_exists)
      | none ↦ add_file ns parent entries name owner file_size now
    ]
  ]
]

unfoldable pub delete_file : Namespace → Name → Namespace × Result (Unit {0})
delete_file ns path = elim (resolve_path ns.dir_entries path) [
  | err s ↦ (ns, err s)
  | ok (parent, name) ↦ elim (Map.find parent ns.dir_entries) [
    | none ↦ (ns, err not_found)
    | some entries ↦ elim (find_first (file_named name) entries) [
      | none ↦ (ns, err not_found)
      | some entry ↦ (
        record {
          dir_entries = Map.put parent (erase_first (file_named name) entries) ns.dir_entries;
          inode_table = (InodeTable.delete ns.inode_table entry.inode_id).0;
        },
        ok tt,
      )
    ]
  ]
]

-- Rename after the source entry `moving` was erased, which left `dirs`.
unfoldable pub rename_into :
    Namespace → Dirs → DirEntry → ℕ → Name → ℕ → Namespace × Result (Unit {0})
rename_into ns dirs moving dst_parent dst_name now = elim (Map.find dst_parent dirs) [
  | none ↦ (record ns { dir_entries = dirs }, err not_found)
  | some entries ↦ elim (find_first (named dst_name) entries) [
    | some _ ↦ (record ns { dir_entries = dirs }, err already_exists)
    | none ↦
        let moved = record moving { name = dst_name } in
        let dirs' = Map.put dst_parent (entries ++ moved ∷ []) dirs in
        elim (InodeTable.get ns.inode_table moving.inode_id) [
          | err _ ↦ (record ns { dir_entries = dirs' }, ok tt)
          | ok inode ↦
              let inode' = record inode {
                name = dst_name;
                parent_id = dst_parent;
                ctime_ns = now;
              } in
              (
                record {
                  dir_entries = dirs';
                  inode_table = (InodeTable.update ns.inode_table inode').0;
                },
                ok tt,
              )
        ]
  ]
]

unfoldable pub rename : Namespace → Name → Name → ℕ → Namespace × Result (Unit {0})
rename ns src_path dst_path now = elim (resolve_path ns.dir_entries src_path) [
  | err s ↦ (ns, err s)
  | ok (src_parent, src_name) ↦ elim (resolve_path ns.dir_entries dst_path) [
    | err s ↦ (ns, err s)
    | ok (dst_parent, dst_name) ↦ elim (Map.find src_parent ns.dir_entries) [
      | none ↦ (ns, err not_found)
      | some entries ↦ elim (find_first (named src_name) entries) [
        | none ↦ (ns, err not_found)
        | some moving ↦
            rename_into ns
              (Map.put src_parent (erase_first (named src_name) entries) ns.dir_entries) moving
              dst_parent dst_name now
      ]
    ]
  ]
]
