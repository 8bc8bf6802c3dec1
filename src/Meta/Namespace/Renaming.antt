-- ===== src/Meta/Namespace/Renaming.antt =====
-- Rename keeps the invariant, also on the path on which it loses the source entry.
use openfs.Common.{
  ℕ, List, [], ◌∷◌, ◌++◌, ◌≡◌, ◌≢◌, inl, inr, refl, ◌∙◌, ap, some, none, arith, find_first,
  erase_first, All, All-find_first, find_first-passes, eqs_iff, subst, Option-cases,
}
use openfs.Common.Map
use openfs.Common.Map.{Map, find-put, find-put_self, find-erase}
use openfs.Types.{Name, DirEntry, Inode, ok, err, already_exists, Result-cases}
use openfs.Meta.InodeTable
use openfs.Meta.InodeTable.{InodeTable}
use openfs.Meta.Path.{Dirs, named, resolve_path}
use openfs.Meta.Namespace.{Namespace, rename_into, rename}
use openfs.Meta.Namespace.Entries.{Linked, erased-ne}
use openfs.Meta.Namespace.Consistency.{
  GoodEntries, Consistent, IsConsistent, erase_entry, erase_entry_inode, add_entry, same_table,
}

-- The inode under its new name and parent.
abbrev pub renamed : Inode → ℕ → Name → ℕ → Inode
renamed inode dst_parent dst_name now = record inode {
  name = dst_name;
  parent_id = dst_parent;
  ctime_ns = now;
}

module _ (ns : Namespace) (src_parent : ℕ) (moving : DirEntry)
    (linked : Linked ns.inode_table.inodes src_parent moving) where
  at_own_id : Map.find linked.inode.inode_id ns.inode_table.inodes ≡ some linked.inode
  at_own_id = ap (λ k. Map.find k ns.inode_table.inodes) linked.same_id ∙ linked.present

  -- The entry's inode is updated.
  update_linked :
      (dst_parent : ℕ) (dst_name : Name) (now : ℕ)
      → (InodeTable.update ns.inode_table (renamed linked.inode dst_parent dst_name now)).0
        ≡ record ns.inode_table {
          inodes =
              Map.put moving.inode_id
                (renamed linked.inode dst_parent dst_name now)
                ns.inode_table.inodes;
        }
  unfolding InodeTable.update
  update_linked dst_parent dst_name now = ground (arith, at_own_id, linked.same_id)

  pub rename_into-ok :
      (dirs : Dirs) (dst_parent : ℕ) (dst_name : Name) (now : ℕ) (es : List DirEntry)
      → Map.find dst_parent dirs ≡ some es
      → find_first (named dst_name) es ≡ none
      → rename_into ns dirs moving dst_parent dst_name now ≡ (
        record {
          dir_entries = Map.put dst_parent (es ++ record moving { name = dst_name } ∷ []) dirs;
          inode_table = record ns.inode_table {
            inodes =
                Map.put moving.inode_id
                  (renamed linked.inode dst_parent dst_name now)
                  ns.inode_table.inodes;
          };
        },
        ok tt,
      )
  unfolding rename_into InodeTable.get
  rename_into-ok dirs dst_parent dst_name now es at_dst free =
      ground (arith, at_dst, free, linked.present, update_linked dst_parent dst_name now)

  rename_into-IsConsistent :
      (dirs : Dirs) (dst_parent : ℕ) (dst_name : Name) (now : ℕ)
      → Consistent dirs ns.inode_table.inodes ns.inode_table.next_inode_id
      → Consistent dirs
          (Map.erase moving.inode_id ns.inode_table.inodes)
          ns.inode_table.next_inode_id
      → IsConsistent (rename_into ns dirs moving dst_parent dst_name now).0
  unfolding rename_into
  rename_into-IsConsistent dirs dp name now c c' = elim (Option-cases (Map.find dp dirs)) [
    | inl missing ↦ rw (missing, rename_into) c
    | inr (es, at_dst) ↦ elim (Option-cases (find_first (named name) es)) [
      | inr (e, taken) ↦ rw (at_dst, rename_into, taken) c
      | inl free ↦ rw (rename_into-ok dirs dp name now es at_dst free) (
          same_table
            (add_entry c' dp ns.inode_table.next_inode_id es (record moving { name = name }) i
              (c'.good dp es at_dst) (c'.dir_below dp es at_dst) (omega arith)
              (c.inode_below i.inode_id linked.inode at_own_id)
              (ground (
                arith,
                linked.same_id,
                find-erase i.inode_id moving.inode_id ns.inode_table.inodes,
              ))
              (record {
                inode = i;
                present = ground (
                  arith,
                  linked.same_id,
                  find-put moving.inode_id i.inode_id i
                      (Map.erase moving.inode_id ns.inode_table.inodes),
                );
                same_id = linked.same_id;
                same_type = linked.same_type;
                same_parent = refl;
                same_name = refl;
              })
              free)
            _
            (λ k. ground (
              arith,
              linked.same_id,
              find-put k moving.inode_id i ns.inode_table.inodes,
              find-put k i.inode_id i (Map.erase moving.inode_id ns.inode_table.inodes),
              find-erase k moving.inode_id ns.inode_table.inodes,
            )))
    ]
  ]
    where
      i : Inode
      i = renamed linked.inode dp name now

pub rename-IsConsistent :
    (ns : Namespace) (src dst : Name) (now : ℕ)
    → IsConsistent ns
    → IsConsistent (rename ns src dst now).0
unfolding rename
rename-IsConsistent ns src dst now c = elim (Result-cases (resolve_path ns.dir_entries src)) [
  | inl (s, failed) ↦ rw (failed, rename) c
  | inr ((sp, src_name), at_src) ↦ elim (Result-cases (resolve_path ns.dir_entries dst)) [
    | inl (s, failed) ↦ rw (at_src, rename, failed) c
    | inr ((dp, dst_name), at_dst) ↦ elim (Option-cases (Map.find sp ns.dir_entries)) [
      | inl missing ↦ rw (at_src, rename, at_dst, missing) c
      | inr (es, listed) ↦ elim (Option-cases (find_first (named src_name) es)) [
        | inl absent ↦ rw (at_src, rename, at_dst, listed, absent) c
        | inr (e, found) ↦
            let linked =
              All-find_first (named src_name) (Linked ns.inode_table.inodes sp) es
                (c.good sp es listed).1 found in
            rw (at_src, rename, at_dst, listed, found)
              (rename_into-IsConsistent ns sp e linked _ dp dst_name now
                (erase_entry c (named src_name) sp es listed)
                (erase_entry_inode c (named src_name) sp es e listed found))
      ]
    ]
  ]
]

All-others :
    (name : Name) (es : List DirEntry)
    → All (λ (f : DirEntry). f.name ≢ name) es
    → find_first (named name) es ≡ none
unfolding find_first
All-others name [] a = refl
All-others name (e ∷ es) a =
    let other = a.0 in ground (arith, eqs_iff e.name name, other, All-others name es a.1)

-- In a consistent namespace, when both paths of a Rename resolve, the source entry is there and
-- the directory of the destination exists: if the destination name is free, the entry is taken
-- out of the source directory and stands under its new name in the destination, with its inode,
-- and no other directory or inode has changed; if it is taken, the call reports kAlreadyExists,
-- and the source entry is gone all the same, while the inode table has not changed.
pub rename_effect :
    (ns : Namespace) (src dst : Name) (now sp dp : ℕ) (sn dn : Name) (es fs : List DirEntry)
    (e : DirEntry)
    → (c : IsConsistent ns) → resolve_path ns.dir_entries src ≡ ok (sp, sn)
    → resolve_path ns.dir_entries dst ≡ ok (dp, dn)
    → Map.find sp ns.dir_entries ≡ some es
    → find_first (named sn) es ≡ some e
    → Map.find dp (Map.put sp (erase_first (named sn) es) ns.dir_entries) ≡ some fs
    → (find_first (named dn) fs ≡ none
        → ((rename ns src dst now).1 ≡ ok tt)
          × (Map.find dp (rename ns src dst now).0.dir_entries
              ≡ some (fs ++ record e { name = dn } ∷ []))
          × (find_first (named sn) (erase_first (named sn) es) ≡ none)
          × (sp ≢ dp
              → Map.find sp (rename ns src dst now).0.dir_entries
                ≡ some (erase_first (named sn) es))
          × ((k : ℕ)
              → k ≢ sp
              → k ≢ dp
              → Map.find k (rename ns src dst now).0.dir_entries ≡ Map.find k ns.dir_entries)
          × Linked (rename ns src dst now).0.inode_table.inodes dp (record e { name = dn })
          × ((k : ℕ)
              → k ≢ e.inode_id
              → Map.find k (rename ns src dst now).0.inode_table.inodes
                ≡ Map.find k ns.inode_table.inodes))
      × ((f : DirEntry)
          → find_first (named dn) fs ≡ some f
          → ((rename ns src dst now).1 ≡ err already_exists)
            × (Map.find sp (rename ns src dst now).0.dir_entries ≡ some (erase_first (named sn) es))
            × (find_first (named sn) (erase_first (named sn) es) ≡ none)
            × ((rename ns src dst now).0.inode_table ≡ ns.inode_table))
unfolding rename rename_into
rename_effect ns src dst now sp dp sn dn es fs e c at_src at_dst listed found listed' = (
  λ free.
      rw
        (
          at_src,
          rename,
          at_dst,
          listed,
          found,
          rename_into-ok ns sp e linked _ dp dn now fs listed' free,
        )
        (
          refl,
          find-put_self dp _ _,
          gone,
          (λ ne.
              ground (arith, find-put sp dp moved dirs, find-put_self sp rest ns.dir_entries, ne)),
          (λ k ne ne'.
              ground (arith, find-put k dp moved dirs, find-put k sp rest ns.dir_entries, ne, ne')),
          record {
            inode = renamed linked.inode dp dn now;
            present = find-put_self e.inode_id _ ns.inode_table.inodes;
            same_id = linked.same_id;
            same_type = linked.same_type;
            same_parent = refl;
            same_name = refl;
          },
          λ k ne. ground (
            arith,
            find-put k e.inode_id (renamed linked.inode dp dn now) ns.inode_table.inodes,
            ne,
          ),
        ),
  λ f taken.
      rw (at_src, rename, at_dst, listed, found, rename_into, listed', taken)
        (refl, find-put_self sp _ ns.dir_entries, gone, refl),
)
  where
    rest : List DirEntry
    rest = erase_first (named sn) es

    dirs : Dirs
    dirs = Map.put sp rest ns.dir_entries

    moved : List DirEntry
    moved = fs ++ record e { name = dn } ∷ []

    good : GoodEntries ns.inode_table.inodes sp es
    good = c.good sp es listed

    linked : Linked ns.inode_table.inodes sp e
    linked = All-find_first (named sn) (Linked ns.inode_table.inodes sp) es good.1 found

    name : e.name ≡ sn
    name = (eqs_iff e.name sn).0 (find_first-passes (named sn) es found)

    gone : find_first (named sn) (erase_first (named sn) es) ≡ none
    gone = All-others sn (erase_first (named sn) es) (
        subst (λ n. All (λ (f : DirEntry). f.name ≢ n) (erase_first (named sn) es)) name
          (erased-ne (named sn) es e good.0 found))
