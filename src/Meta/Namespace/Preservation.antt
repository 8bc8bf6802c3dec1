-- ===== src/Meta/Namespace/Preservation.antt =====
-- Every operation of the namespace keeps the invariant, on every branch.
use openfs.Common.{
  ℕ, List, [], ◌∷◌, ◌++◌, ◌+◌, ◌%◌, ◌<◌, ◌≡◌, inl, inr, refl, some, none, arith, find_first,
  All-find_first, eqs, Bool-cases, Option-cases, u64_mod,
}
use openfs.Common.Map
use openfs.Common.Map.{Map, find-put, find-put_self, find-erase}
use openfs.Types.{Name, DirEntry, Inode, ok, Result-cases}
use openfs.Meta.InodeTable
use openfs.Meta.InodeTable.{InodeTable}
use openfs.Meta.Path.{
  named, directory_named, file_named, resolve_path, is_root, split_path, init_last,
  resolve_components, starts_with_slash,
}
use openfs.Meta.Namespace.{
  Namespace, Owner, entries_of, new_directory, new_file, entry_for, has_children, add_directory,
  mkdir, rmdir, add_file, create_file, delete_file,
}
use openfs.Meta.Namespace.Entries.{Linked}
use openfs.Meta.Namespace.Consistency.{
  GoodEntries, IsConsistent, erase_entry_inode, add_entry, empty_directory, drop_directory,
  walk-below,
}

-- A path resolves to a parent whose id is in use.
pub resolve_path-below :
    (ns : Namespace) (path : Name) (parent : ℕ) (name : Name)
    → IsConsistent ns
    → resolve_path ns.dir_entries path ≡ ok (parent, name)
    → parent < ns.inode_table.next_inode_id
unfolding resolve_path resolve_components
resolve_path-below ns path parent name c h = elim (Bool-cases (starts_with_slash path)) [
  | inl slash ↦ elim (Bool-cases (is_root path)) [
    | inl root ↦ let at_root : 1 ≡ parent = ground arith in omega (arith, c.root_below)
    | inr other ↦ components_below (split_path [] path) (ground arith)
  ]
  | inr none_found ↦ ground arith
]
  where
    components_below :
        (names : List Name)
        → resolve_components ns.dir_entries names ≡ ok (parent, name)
        → parent < ns.inode_table.next_inode_id
    components_below [] e = ground arith
    components_below (d ∷ names) e =
        walk-below c (init_last d names).0 1 parent c.root_below (ground arith)

-- What stands behind a directory's list, if it has one.
entries_of-Good :
    (ns : Namespace) (k : ℕ)
    → IsConsistent ns
    → GoodEntries ns.inode_table.inodes k (entries_of k ns.dir_entries)
entries_of-Good ns k c = elim (Option-cases (Map.find k ns.dir_entries)) [
  | inl missing ↦ rw (missing, entries_of) (tt, tt)
  | inr (es, at_k) ↦ rw (at_k, entries_of) (c.good k es at_k)
]

-- Room for one more inode id: the counter does not wrap.
abbrev pub HasRoom : Namespace → Type 0
HasRoom ns = ns.inode_table.next_inode_id + 1 < u64_mod

-- A new id is not in the table.
pub fresh :
    (ns : Namespace)
    → IsConsistent ns
    → Map.find ns.inode_table.next_inode_id ns.inode_table.inodes ≡ none
fresh ns c = elim (Option-cases (Map.find ns.inode_table.next_inode_id ns.inode_table.inodes)) [
  | inl absent ↦ absent
  | inr (i, present) ↦ absurd (omega (arith, c.inode_below ns.inode_table.next_inode_id i present))
]

pub delete_file-IsConsistent :
    (ns : Namespace) (path : Name) → IsConsistent ns → IsConsistent (delete_file ns path).0
unfolding delete_file InodeTable.delete
delete_file-IsConsistent ns path c = elim (Result-cases (resolve_path ns.dir_entries path)) [
  | inl (s, failed) ↦ rw (failed, delete_file) c
  | inr ((parent, name), resolved) ↦ elim (Option-cases (Map.find parent ns.dir_entries)) [
    | inl missing ↦ rw (resolved, delete_file, missing) c
    | inr (es, at_parent) ↦ elim (Option-cases (find_first (file_named name) es)) [
      | inl absent ↦ rw (resolved, delete_file, at_parent, absent) c
      | inr (e, found) ↦
          let linked =
            All-find_first (file_named name) (Linked ns.inode_table.inodes parent) es
              (c.good parent es at_parent).1 found in
          rw (resolved, delete_file, at_parent, found, linked.present, InodeTable.delete)
            (erase_entry_inode c (file_named name) parent es e at_parent found)
    ]
  ]
]

pub rmdir-IsConsistent :
    (ns : Namespace) (path : Name) → IsConsistent ns → IsConsistent (rmdir ns path).0
unfolding rmdir InodeTable.delete
rmdir-IsConsistent ns path c = elim (Bool-cases (is_root path)) [
  | inl root ↦ rw (root, rmdir) c
  | inr other ↦ elim (Result-cases (resolve_path ns.dir_entries path)) [
    | inl (s, failed) ↦ rw (other, rmdir, failed) c
    | inr ((parent, name), resolved) ↦ elim (Option-cases (Map.find parent ns.dir_entries)) [
      | inl missing ↦ rw (other, rmdir, resolved, missing) c
      | inr (es, at_parent) ↦ elim (Option-cases (find_first (directory_named name) es)) [
        | inl absent ↦ rw (other, rmdir, resolved, at_parent, absent) c
        | inr (e, found) ↦ elim (Bool-cases (has_children e.inode_id ns.dir_entries)) [
          | inl children ↦ rw (other, rmdir, resolved, at_parent, found, children) c
          | inr empty ↦
              let linked =
                All-find_first (directory_named name) (Linked ns.inode_table.inodes parent) es
                  (c.good parent es at_parent).1 found in
              rw
                (other, rmdir, resolved, at_parent, found, empty, linked.present, InodeTable.delete)
                (drop_directory
                  (erase_entry_inode c (directory_named name) parent es e at_parent found)
                  e.inode_id)
        ]
      ]
    ]
  ]
]

-- The new entry's inode is linked to it.
Linked-new :
    (inodes : Map Inode) (parent : ℕ) (i : Inode)
    → i.parent_id ≡ parent
    → Linked (Map.put i.inode_id i inodes) parent (entry_for i)
Linked-new inodes parent i e = record {
  inode = i;
  present = find-put_self i.inode_id i inodes;
  same_id = refl;
  same_type = refl;
  same_parent = e;
  same_name = refl;
}

-- The namespace with one new directory, and with one new file, under the next id.
abbrev pub with_directory : Namespace → ℕ → Name → Owner → ℕ → Namespace
with_directory ns parent name owner now =
    let id = ns.inode_table.next_inode_id in
    let i = new_directory id parent name owner now in
    let dirs =
      Map.put parent (entries_of parent ns.dir_entries ++ entry_for i ∷ []) ns.dir_entries in
    record {
      dir_entries = Map.put id [] dirs;
      inode_table = record { inodes = Map.put id i ns.inode_table.inodes; next_inode_id = id + 1 };
    }

abbrev pub with_file : Namespace → ℕ → List DirEntry → Name → Owner → ℕ → ℕ → Namespace
with_file ns parent es name owner size now =
    let id = ns.inode_table.next_inode_id in
    let i = new_file id parent name owner size now in
    record {
      dir_entries = Map.put parent (es ++ entry_for i ∷ []) ns.dir_entries;
      inode_table = record { inodes = Map.put id i ns.inode_table.inodes; next_inode_id = id + 1 };
    }

module _ (ns : Namespace) (c : IsConsistent ns) (room : HasRoom ns) where
  no_wrap : (ns.inode_table.next_inode_id + 1) % u64_mod ≡ ns.inode_table.next_inode_id + 1
  no_wrap = omega arith

  -- With room for an id the creation of an inode succeeds.
  pub add_directory_lem :
      (parent : ℕ) (name : Name) (owner : Owner) (now : ℕ)
      → add_directory ns parent name owner now ≡ (
        with_directory ns parent name owner now,
        ok (new_directory ns.inode_table.next_inode_id parent name owner now),
      )
  unfolding add_directory InodeTable.create InodeTable.allocate_inode_id
  add_directory_lem parent name owner now = ground (arith, fresh ns c, no_wrap)

  pub add_file_lem :
      (parent : ℕ) (es : List DirEntry) (name : Name) (owner : Owner) (size now : ℕ)
      → add_file ns parent es name owner size now ≡ (
        with_file ns parent es name owner size now,
        ok (new_file ns.inode_table.next_inode_id parent name owner size now),
      )
  unfolding add_file InodeTable.create InodeTable.allocate_inode_id
  add_file_lem parent es name owner size now = ground (arith, fresh ns c, no_wrap)

  add_directory-IsConsistent :
      (parent : ℕ) (name : Name) (owner : Owner) (now : ℕ)
      → parent < ns.inode_table.next_inode_id
      → find_first (named name) (entries_of parent ns.dir_entries) ≡ none
      → IsConsistent (add_directory ns parent name owner now).0
  add_directory-IsConsistent parent name owner now below free =
      let id = ns.inode_table.next_inode_id in
      let i = new_directory id parent name owner now in
      rw (add_directory_lem parent name owner now) (
        empty_directory
          (add_entry c parent (id + 1) (entries_of parent ns.dir_entries) (entry_for i) i
            (entries_of-Good ns parent c) (omega arith) (omega arith) (omega arith) (fresh ns c)
            (Linked-new ns.inode_table.inodes parent i refl) free)
          id (omega arith))

  pub mkdir-IsConsistent :
      (path : Name) (owner : Owner) (now : ℕ) → IsConsistent (mkdir ns path owner now).0
  unfolding mkdir
  mkdir-IsConsistent path owner now = elim (Result-cases (resolve_path ns.dir_entries path)) [
    | inl (s, failed) ↦ rw (failed, mkdir) c
    | inr ((parent, name), resolved) ↦ elim (Bool-cases (eqs name [])) [
      | inl root ↦ rw (resolved, mkdir, root) c
      | inr named_so ↦
          elim (Option-cases (find_first (named name) (entries_of parent ns.dir_entries))) [
            | inr (e, taken) ↦ rw (resolved, mkdir, named_so, taken) c
            | inl free ↦
                rw (resolved, mkdir, named_so, free)
                  (add_directory-IsConsistent parent name owner now
                    (resolve_path-below ns path parent name c resolved) free)
          ]
    ]
  ]

  add_file-IsConsistent :
      (parent : ℕ) (es : List DirEntry) (name : Name) (owner : Owner) (size now : ℕ)
      → Map.find parent ns.dir_entries ≡ some es
      → find_first (named name) es ≡ none
      → IsConsistent (add_file ns parent es name owner size now).0
  add_file-IsConsistent parent es name owner size now at_parent free =
      let id = ns.inode_table.next_inode_id in
      let i = new_file id parent name owner size now in
      rw (add_file_lem parent es name owner size now) (
        add_entry c parent (id + 1) es (entry_for i) i (c.good parent es at_parent)
          (omega (arith, c.dir_below parent es at_parent)) (omega arith) (omega arith) (fresh ns c)
          (Linked-new ns.inode_table.inodes parent i refl) free)

  pub create_file-IsConsistent :
      (path : Name) (owner : Owner) (size now : ℕ)
      → IsConsistent (create_file ns path owner size now).0
  unfolding create_file
  create_file-IsConsistent path owner size now =
      elim (Result-cases (resolve_path ns.dir_entries path)) [
        | inl (s, failed) ↦ rw (failed, create_file) c
        | inr ((parent, name), resolved) ↦ elim (Option-cases (Map.find parent ns.dir_entries)) [
          | inl missing ↦ rw (resolved, create_file, missing) c
          | inr (es, at_parent) ↦ elim (Option-cases (find_first (named name) es)) [
            | inr (e, taken) ↦ rw (resolved, create_file, at_parent, taken) c
            | inl free ↦
                rw (resolved, create_file, at_parent, free)
                  (add_file-IsConsistent parent es name owner size now at_parent free)
          ]
        ]
      ]
