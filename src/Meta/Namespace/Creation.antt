-- ===== src/Meta/Namespace/Creation.antt =====
-- MkDir and CreateFile against Lookup, and DeleteFile against CreateFile.
use openfs.Common.{
  ℕ, List, [], ◌∷◌, ◌++◌, ◌<◌, ◌≡◌, ◌∙◌, inl, inr, refl, some, none, true, false, arith, find_first,
  erase_first, find_first-append_none, erase_first-append_none, Bool-cases, Option-cases,
  append-nil, eqs, eqs_iff, eqs_refl,
}
use openfs.Common.Map
use openfs.Common.Map.{Map, find-put, find-put_self, find-erase}
use openfs.Types.{Name, Inode, DirEntry, ok, Result-cases}
use openfs.Meta.InodeTable
use openfs.Meta.Path.{named, file_named, resolve_path, is_root, is_regular}
use openfs.Meta.Namespace.{
  Namespace, Owner, lookup, entries_of, entry_for, mkdir, create_file, delete_file, new_file,
  new_directory,
}
use openfs.Meta.Namespace.Consistency.{IsConsistent}
use openfs.Meta.Namespace.Preservation.{
  HasRoom, with_file, with_directory, add_file_lem, add_directory_lem, fresh, resolve_path-below,
}
use openfs.Meta.Namespace.Lookups.{
  Extends, Extends-put, Extends-put_new, Extends-trans, resolve_path-Extends, Grows, lookup-Grows,
}

-- The only test that an entry's own name has to pass.
find_first-own_name :
    (es : List DirEntry) (e : DirEntry)
    → find_first (named e.name) es ≡ none
    → find_first (named e.name) (es ++ e ∷ []) ≡ some e
unfolding find_first
find_first-own_name es e free =
    find_first-append_none (named e.name) es (e ∷ []) free ∙ rw (eqs_refl e.name)

-- What a lookup needs to find an entry.
lookup_found :
    (ns : Namespace) (path : Name) (parent : ℕ) (name : Name) (es : List DirEntry) (e : DirEntry)
    (i : Inode)
    → is_root path ≡ false
    → resolve_path ns.dir_entries path ≡ ok (parent, name)
    → Map.find parent ns.dir_entries ≡ some es
    → find_first (named name) es ≡ some e
    → Map.find e.inode_id ns.inode_table.inodes ≡ some i
    → lookup ns path ≡ ok i
unfolding lookup InodeTable.get
lookup_found ns path parent name es e i other resolved listed found present = ground arith

-- A path that led to an inode leads to what stands in its place.
pub lookup-update :
    (ns ns' : Namespace) (path : Name) (i i' : Inode)
    → IsConsistent ns
    → is_root path ≡ false
    → lookup ns path ≡ ok i
    → ns'.dir_entries ≡ ns.dir_entries
    → InodeTable.get ns'.inode_table i.inode_id ≡ ok i'
    → lookup ns' path ≡ ok i'
unfolding lookup InodeTable.get
lookup-update ns ns' path i i' c other found same placed =
    elim (Result-cases (resolve_path ns.dir_entries path)) [
      | inl (s, failed) ↦ ground arith
      | inr ((parent, name), resolved) ↦ elim (Option-cases (Map.find parent ns.dir_entries)) [
        | inl missing ↦ ground arith
        | inr (es, listed) ↦ elim (Option-cases (find_first (named name) es)) [
          | inl free ↦ ground arith
          | inr (e, taken) ↦
              let present : Map.find e.inode_id ns.inode_table.inodes ≡ some i = ground arith in
              let own = c.own_id e.inode_id i present in ground (arith, own)
        ]
      ]
    ]

module _ (ns : Namespace) (c : IsConsistent ns) (room : HasRoom ns) where
  new_id_grows :
      (i : Inode) (k : ℕ) (j : Inode)
      → Map.find k ns.inode_table.inodes ≡ some j
      → Map.find k (Map.put ns.inode_table.next_inode_id i ns.inode_table.inodes) ≡ some j
  new_id_grows i k j h =
      ground (
        arith,
        find-put k ns.inode_table.next_inode_id i ns.inode_table.inodes,
        c.inode_below k j h,
      )

  with_file-Grows :
      (parent : ℕ) (es : List DirEntry) (name : Name) (owner : Owner) (size now : ℕ)
      → Map.find parent ns.dir_entries ≡ some es
      → Grows ns (with_file ns parent es name owner size now)
  with_file-Grows parent es name owner size now listed = record {
    extends = Extends-put ns.dir_entries parent es _ listed;
    keeps = new_id_grows _;
  }

  -- In a consistent namespace with ids left, a file that CreateFile made at a path other than the
  -- root is what Lookup returns for its path, and every path that Lookup resolved before gives
  -- the same inode as before.
  pub create_file-lookup :
      (path : Name) (owner : Owner) (size now : ℕ) (i : Inode)
      → is_root path ≡ false
      → (create_file ns path owner size now).1 ≡ ok i
      → (lookup (create_file ns path owner size now).0 path ≡ ok i)
        × ((q : Name) (j : Inode)
            → lookup ns q ≡ ok j
            → lookup (create_file ns path owner size now).0 q ≡ ok j)
  unfolding create_file
  create_file-lookup path owner size now i other h =
      elim (Result-cases (resolve_path ns.dir_entries path)) [
        | inl (s, failed) ↦ ground arith
        | inr ((parent, name), resolved) ↦ elim (Option-cases (Map.find parent ns.dir_entries)) [
          | inl missing ↦ ground arith
          | inr (es, listed) ↦ elim (Option-cases (find_first (named name) es)) [
            | inr (e, taken) ↦ ground arith
            | inl free ↦
                let added = add_file_lem ns c room parent es name owner size now in
                let g = with_file-Grows parent es name owner size now listed in
                let new = new_file ns.inode_table.next_inode_id parent name owner size now in
                let same : new ≡ i = ground (arith, added) in
                rw (resolved, create_file, listed, free, added, ← same)
                  (
                    lookup_found (with_file ns parent es name owner size now) path parent name
                        (es ++ entry_for new ∷ []) (entry_for new) new other
                        (resolve_path-Extends ns.dir_entries _ g.extends path parent name resolved)
                        (find-put_self parent _ ns.dir_entries)
                        (find_first-own_name es (entry_for new) free)
                        (find-put_self ns.inode_table.next_inode_id new ns.inode_table.inodes),
                    λ q j. lookup-Grows ns _ q j g,
                  )
          ]
        ]
      ]

  -- The inode of a new file.
  pub create_file-made :
      (path : Name) (owner : Owner) (size now : ℕ) (i : Inode)
      → (create_file ns path owner size now).1 ≡ ok i
      → (i.size ≡ size)
        × (i.inode_id ≡ ns.inode_table.next_inode_id)
        × (InodeTable.get (create_file ns path owner size now).0.inode_table i.inode_id ≡ ok i)
  unfolding create_file InodeTable.get
  create_file-made path owner size now i h =
      elim (Result-cases (resolve_path ns.dir_entries path)) [
        | inl (s, failed) ↦ ground arith
        | inr ((parent, name), resolved) ↦ elim (Option-cases (Map.find parent ns.dir_entries)) [
          | inl missing ↦ ground arith
          | inr (es, listed) ↦ elim (Option-cases (find_first (named name) es)) [
            | inr (e, taken) ↦ ground arith
            | inl free ↦
                let added = add_file_lem ns c room parent es name owner size now in
                let new = new_file ns.inode_table.next_inode_id parent name owner size now in
                let same : new ≡ i = ground (arith, added) in
                rw (resolved, create_file, listed, free, added, ← same)
                  (
                    refl,
                    refl,
                    ground (
                      arith,
                      find-put_self ns.inode_table.next_inode_id new ns.inode_table.inodes,
                    ),
                  )
          ]
        ]
      ]

  no_directory : Map.find ns.inode_table.next_inode_id ns.dir_entries ≡ none
  no_directory = elim (Option-cases (Map.find ns.inode_table.next_inode_id ns.dir_entries)) [
    | inl absent ↦ absent
    | inr (es, listed) ↦ absurd (omega (arith, c.dir_below ns.inode_table.next_inode_id es listed))
  ]

  Extends-entries_of :
      (parent : ℕ) (more : List DirEntry)
      → Extends ns.dir_entries
          (Map.put parent (entries_of parent ns.dir_entries ++ more) ns.dir_entries)
  Extends-entries_of parent more = elim (Option-cases (Map.find parent ns.dir_entries)) [
    | inl missing ↦ rw (missing, entries_of) (Extends-put_new ns.dir_entries parent more missing)
    | inr (es, listed) ↦ rw (listed, entries_of) (Extends-put ns.dir_entries parent es more listed)
  ]

  with_directory-Grows :
      (parent : ℕ) (name : Name) (owner : Owner) (now : ℕ)
      → parent < ns.inode_table.next_inode_id
      → Grows ns (with_directory ns parent name owner now)
  with_directory-Grows parent name owner now below = record {
    extends = Extends-trans ns.dir_entries _ _ (Extends-entries_of parent _) (
        Extends-put_new _ ns.inode_table.next_inode_id [] (
          ground (
            arith,
            no_directory,
            find-put ns.inode_table.next_inode_id parent
                (entries_of parent ns.dir_entries
                  ++ entry_for (new_directory ns.inode_table.next_inode_id parent name owner now)
                    ∷ [])
                ns.dir_entries,
          )));
    keeps = new_id_grows _;
  }

  -- In a consistent namespace with ids left, a directory that MkDir made at a path other than the
  -- root is what Lookup returns for its path, it is empty, and every path that Lookup resolved
  -- before gives the same inode as before.
  pub mkdir-lookup :
      (path : Name) (owner : Owner) (now : ℕ) (i : Inode)
      → is_root path ≡ false
      → (mkdir ns path owner now).1 ≡ ok i
      → (lookup (mkdir ns path owner now).0 path ≡ ok i)
        × (Map.find i.inode_id (mkdir ns path owner now).0.dir_entries ≡ some [])
        × ((q : Name) (j : Inode)
            → lookup ns q ≡ ok j
            → lookup (mkdir ns path owner now).0 q ≡ ok j)
  unfolding mkdir
  mkdir-lookup path owner now i other h = elim (Result-cases (resolve_path ns.dir_entries path)) [
    | inl (s, failed) ↦ ground arith
    | inr ((parent, name), resolved) ↦ elim (Bool-cases (eqs name [])) [
      | inl empty ↦ ground arith
      | inr given ↦
          elim (Option-cases (find_first (named name) (entries_of parent ns.dir_entries))) [
            | inr (e, taken) ↦ ground arith
            | inl free ↦
                let added = add_directory_lem ns c room parent name owner now in
                let below = resolve_path-below ns path parent name c resolved in
                let g = with_directory-Grows parent name owner now below in
                let id = ns.inode_table.next_inode_id in
                let new = new_directory id parent name owner now in
                let es = entries_of parent ns.dir_entries ++ entry_for new ∷ [] in
                let dirs = Map.put parent es ns.dir_entries in
                let same : new ≡ i = ground (arith, added) in
                rw (resolved, mkdir, given, free, added, ← same)
                  (
                    lookup_found (with_directory ns parent name owner now) path parent name es
                        (entry_for new) new other
                        (resolve_path-Extends ns.dir_entries _ g.extends path parent name resolved)
                        (ground (
                          arith,
                          find-put parent id [] dirs,
                          find-put_self parent es ns.dir_entries,
                        ))
                        (find_first-own_name (entries_of parent ns.dir_entries) (entry_for new)
                          free)
                        (find-put_self id new ns.inode_table.inodes),
                    find-put_self id [] dirs,
                    λ q j. lookup-Grows ns _ q j g,
                  )
          ]
    ]
  ]

-- A name that no entry has is not the name of a file.
no_file :
    (name : Name) (es : List DirEntry)
    → find_first (named name) es ≡ none
    → find_first (file_named name) es ≡ none
unfolding find_first
no_file name [] h = refl
no_file name (e ∷ es) h = ground (arith, no_file name es)

delete_file_found :
    (ns : Namespace) (path : Name) (parent : ℕ) (name : Name) (es : List DirEntry) (e : DirEntry)
    (i : Inode)
    → resolve_path ns.dir_entries path ≡ ok (parent, name)
    → Map.find parent ns.dir_entries ≡ some es
    → find_first (file_named name) es ≡ some e
    → Map.find e.inode_id ns.inode_table.inodes ≡ some i
    → delete_file ns path ≡ (
      record {
        dir_entries = Map.put parent (erase_first (file_named name) es) ns.dir_entries;
        inode_table = record ns.inode_table { inodes = Map.erase e.inode_id ns.inode_table.inodes };
      },
      ok tt,
    )
unfolding delete_file InodeTable.delete
delete_file_found ns path parent name es e i resolved listed found present = ground arith

-- The new file is the first one of its name, and erasing it leaves the old entries.
last_file :
    (name : Name) (es : List DirEntry) (e : DirEntry)
    → e.name ≡ name
    → is_regular e.file_type ≡ true
    → find_first (named name) es ≡ none
    → (find_first (file_named name) (es ++ e ∷ []) ≡ some e)
      × (erase_first (file_named name) (es ++ e ∷ []) ≡ es)
unfolding find_first erase_first
last_file name es e same file free =
    let none_yet = no_file name es free in
    let passes : file_named name e ≡ true = ground (arith, eqs_iff e.name name) in
    (
      find_first-append_none (file_named name) es (e ∷ []) none_yet ∙ rw passes,
      erase_first-append_none (file_named name) es (e ∷ []) none_yet ∙ rw (passes, append-nil),
    )

-- The deletion, from the state that the creation left.
delete_new :
    (ns : Namespace) (path : Name) (parent : ℕ) (name : Name) (es : List DirEntry) (owner : Owner)
    (size now : ℕ)
    → IsConsistent ns
    → HasRoom ns
    → resolve_path ns.dir_entries path ≡ ok (parent, name)
    → Map.find parent ns.dir_entries ≡ some es
    → find_first (named name) es ≡ none
    → ((delete_file (with_file ns parent es name owner size now) path).1 ≡ ok tt)
      × ((k : ℕ)
          → Map.find k (delete_file (with_file ns parent es name owner size now) path).0.dir_entries
            ≡ Map.find k ns.dir_entries)
      × ((k : ℕ)
          → Map.find k
              (delete_file (with_file ns parent es name owner size now) path).0.inode_table.inodes
            ≡ Map.find k ns.inode_table.inodes)
unfolding is_regular
delete_new ns path parent name es owner size now c room resolved listed free =
    let id = ns.inode_table.next_inode_id in
    let new = new_file id parent name owner size now in
    let es' = es ++ entry_for new ∷ [] in
    let dirs = Map.put parent es' ns.dir_entries in
    let g = with_file-Grows ns c room parent es name owner size now listed in
    let (found, erased) = last_file name es (entry_for new) refl refl free in
    rw
      (
        delete_file_found (with_file ns parent es name owner size now) path parent name es'
            (entry_for new) new
            (resolve_path-Extends ns.dir_entries dirs g.extends path parent name resolved)
            (find-put_self parent es' ns.dir_entries) found
            (find-put_self id new ns.inode_table.inodes),
        erased,
      )
      (
        refl,
        (λ k.
            ground
              (arith, find-put k parent es dirs, find-put k parent es' ns.dir_entries, listed)),
        (λ k. ground (
          arith,
          find-erase k id (Map.put id new ns.inode_table.inodes),
          find-put k id new ns.inode_table.inodes,
          fresh ns c,
        )),
      )

-- In a consistent namespace with ids left, DeleteFile of a file that CreateFile just made
-- succeeds and gives back every directory and every inode.
pub delete_file-create_file :
    (ns : Namespace) (path : Name) (owner : Owner) (size now : ℕ) (i : Inode)
    → IsConsistent ns
    → HasRoom ns
    → (create_file ns path owner size now).1 ≡ ok i
    → ((delete_file (create_file ns path owner size now).0 path).1 ≡ ok tt)
      × ((k : ℕ)
          → Map.find k (delete_file (create_file ns path owner size now).0 path).0.dir_entries
            ≡ Map.find k ns.dir_entries)
      × ((k : ℕ)
          → Map.find k
              (delete_file (create_file ns path owner size now).0 path).0.inode_table.inodes
            ≡ Map.find k ns.inode_table.inodes)
unfolding create_file
delete_file-create_file ns path owner size now i c room h =
    elim (Result-cases (resolve_path ns.dir_entries path)) [
      | inl (s, failed) ↦ ground arith
      | inr ((parent, name), resolved) ↦ elim (Option-cases (Map.find parent ns.dir_entries)) [
        | inl missing ↦ ground arith
        | inr (es, listed) ↦ elim (Option-cases (find_first (named name) es)) [
          | inr (e, taken) ↦ ground arith
          | inl free ↦
              rw
                (
                  resolved,
                  create_file,
                  listed,
                  free,
                  add_file_lem ns c room parent es name owner size now,
                )
                (delete_new ns path parent name es owner size now c room resolved listed free)
        ]
      ]
    ]
