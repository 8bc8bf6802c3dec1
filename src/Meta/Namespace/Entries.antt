-- ===== src/Meta/Namespace/Entries.antt =====
-- The entries of one directory: their names are distinct, and each is linked to its inode.
use openfs.Common.{
  ℕ, List, [], ◌∷◌, ◌++◌, ◌≡◌, ◌≢◌, ◌⊎◌, inl, inr, sym, ◌∙◌, some, none, Bool, arith, All,
  All-append, All-erase_first, All-find_first, find_first, erase_first, eqs_iff, Bool-cases, ap,
}
use openfs.Common.Map
use openfs.Common.Map.{Map, find-put, find-erase}
use openfs.Types.{DirEntry, Inode}
use openfs.Meta.Path.{named}

-- No two entries have the same name.
abbrev pub DistinctNames : List DirEntry → Type 0
DistinctNames [] = Unit
DistinctNames (e ∷ es) = All (λ (f : DirEntry). f.name ≢ e.name) es × DistinctNames es

-- The entry stands for an inode of the table, of the same name and type, whose parent is the
-- directory `parent`.
pub record Linked (inodes : Map Inode) (parent : ℕ) (e : DirEntry) : Type 0 where
  pub inode : Inode
  pub present : Map.find e.inode_id inodes ≡ some inode
  pub same_id : inode.inode_id ≡ e.inode_id
  pub same_type : inode.file_type ≡ e.file_type
  pub same_parent : inode.parent_id ≡ parent
  pub same_name : inode.name ≡ e.name

pub DistinctNames-erase_first :
    (p : DirEntry → Bool) (es : List DirEntry) → DistinctNames es → DistinctNames (erase_first p es)
unfolding erase_first
DistinctNames-erase_first p [] d = tt
DistinctNames-erase_first p (e ∷ es) d = elim (Bool-cases (p e)) [
  | inl found ↦ rw found d.1
  | inr other ↦ rw other (
    All-erase_first p (λ (f : DirEntry). f.name ≢ e.name) es d.0,
    DistinctNames-erase_first p es d.1,
  )
]

-- Once an entry is erased, no entry of its name is left.
pub erased-ne :
    (p : DirEntry → Bool) (es : List DirEntry) (e : DirEntry)
    → DistinctNames es
    → find_first p es ≡ some e
    → All (λ (f : DirEntry). f.name ≢ e.name) (erase_first p es)
unfolding find_first erase_first
erased-ne p [] e d h = tt
erased-ne p (g ∷ es) e d h = elim (Bool-cases (p g)) [
  | inl found ↦ let same : g ≡ e = ground arith in rw (found, ← same) d.0
  | inr other ↦
      let h' : find_first p es ≡ some e = ground arith in
      rw other (
        λ q. All-find_first p (λ (f : DirEntry). f.name ≢ g.name) es d.0 h' (sym q),
        erased-ne p es e d.1 h',
      )
]

-- A free name stays distinct from the others when it is appended.
pub DistinctNames-append :
    (es : List DirEntry) (new : DirEntry)
    → DistinctNames es
    → find_first (named new.name) es ≡ none
    → DistinctNames (es ++ new ∷ [])
unfolding find_first
DistinctNames-append [] new d h = (tt, tt)
DistinctNames-append (e ∷ es) new d h =
    let here : new.name ≢ e.name = λ same. ground (arith, eqs_iff e.name new.name) in
    let rest : find_first (named new.name) es ≡ none = ground arith in
    (
      All-append (λ (f : DirEntry). f.name ≢ e.name) es (new ∷ []) d.0 (here, tt),
      DistinctNames-append es new d.1 rest,
    )

module _ (inodes : Map Inode) where
  pub Linked-put :
      {parent : ℕ} {e : DirEntry} (id : ℕ) (i : Inode)
      → Linked inodes parent e
      → e.inode_id ≢ id
      → Linked (Map.put id i inodes) parent e
  Linked-put {e = e} id i l ne = record {
    inode = l.inode;
    present = ground (arith, find-put e.inode_id id i inodes, l.present, ne);
    same_id = l.same_id;
    same_type = l.same_type;
    same_parent = l.same_parent;
    same_name = l.same_name;
  }

  pub Linked-erase :
      {parent : ℕ} {e : DirEntry} (id : ℕ)
      → Linked inodes parent e
      → e.inode_id ≢ id
      → Linked (Map.erase id inodes) parent e
  Linked-erase {e = e} id l ne = record {
    inode = l.inode;
    present = ground (arith, find-erase e.inode_id id inodes, l.present, ne);
    same_id = l.same_id;
    same_type = l.same_type;
    same_parent = l.same_parent;
    same_name = l.same_name;
  }

  -- Entries of different directories, or of different names, stand for different inodes.
  pub ids_differ :
      {j k : ℕ} {e f : DirEntry}
      → Linked inodes j e
      → Linked inodes k f
      → (j ≢ k) ⊎ (e.name ≢ f.name)
      → e.inode_id ≢ f.inode_id
  ids_differ {e = e} {f = f} l m apart same =
      let one : l.inode ≡ m.inode = cc (l.present, m.present, same) in
      elim apart [
        | inl ne ↦ ne (sym l.same_parent ∙ ap (λ (i : Inode). i.parent_id) one ∙ m.same_parent)
        | inr ne ↦ ne (sym l.same_name ∙ ap (λ (i : Inode). i.name) one ∙ m.same_name)
      ]
