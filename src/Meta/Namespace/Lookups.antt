-- ===== src/Meta/Namespace/Lookups.antt =====
-- What a lookup finds after a creation.
use openfs.Common.{
  ℕ, List, [], ◌∷◌, ◌++◌, ◌≡◌, ◌∙◌, inl, inr, ap, some, none, arith, find_first, find_first-append,
  Bool-cases, Option-cases, append-nil, append_assoc,
}
use native.Mathlib.Decide.{ℕ_discrete}
use openfs.Common.Map
use openfs.Common.Map.{Map, find-put, find-put_self}
use openfs.Types.{Name, Inode, DirEntry, ok, Result-cases}
use openfs.Meta.InodeTable
use openfs.Meta.Path.{
  Dirs, named, directory_named, walk, init_last, split_path, resolve_components, resolve_path,
  is_root,
}
use openfs.Meta.Namespace.{Namespace, lookup}

-- Every directory keeps its entries, and may have more behind them.
abbrev pub Extends : Dirs → Dirs → Type 0
Extends dirs dirs' =
    (k : ℕ) (es : List DirEntry)
    → Map.find k dirs ≡ some es
    → (more : List DirEntry) × (Map.find k dirs' ≡ some (es ++ more))

pub Extends-put :
    (dirs : Dirs) (k : ℕ) (es more : List DirEntry)
    → Map.find k dirs ≡ some es
    → Extends dirs (Map.put k (es ++ more) dirs)
Extends-put dirs k es more at_k j fs h = elim (ℕ_discrete j k) [
  | yes same ↦
      let one : es ≡ fs = cc (same, at_k, h) in
      (more, ground (arith, find-put j k (es ++ more) dirs, one))
  | no other ↦ ([], rw append-nil (ground (arith, find-put j k (es ++ more) dirs)))
]

pub Extends-put_new :
    (dirs : Dirs) (k : ℕ) (es : List DirEntry)
    → Map.find k dirs ≡ none
    → Extends dirs (Map.put k es dirs)
Extends-put_new dirs k es absent j fs h =
    ([], rw append-nil (ground (arith, find-put j k es dirs, absent)))

pub Extends-trans : (a b c : Dirs) → Extends a b → Extends b c → Extends a c
Extends-trans a b c p q k es h =
    let (more, in_b) = p k es h in
    let (more', in_c) = q k (es ++ more) in_b in
    (more ++ more', in_c ∙ ap some (append_assoc es more more'))

module _ (dirs dirs' : Dirs) (extends : Extends dirs dirs') where
  walk-Extends :
      (names : List Name) (current p : ℕ)
      → walk dirs current names ≡ ok p
      → walk dirs' current names ≡ ok p
  unfolding walk
  walk-Extends [] current p h = h
  walk-Extends (name ∷ names) current p h = elim (Option-cases (Map.find current dirs)) [
    | inl missing ↦ ground arith
    | inr (es, listed) ↦ elim (Option-cases (find_first (directory_named name) es)) [
      | inl absent ↦ ground arith
      | inr (e, found) ↦
          let (more, listed') = extends current es listed in
          ground (
            arith,
            listed',
            find_first-append (directory_named name) es more found,
            walk-Extends names e.inode_id p,
          )
    ]
  ]

  resolve_components-Extends :
      (names : List Name) (parent : ℕ) (name : Name)
      → resolve_components dirs names ≡ ok (parent, name)
      → resolve_components dirs' names ≡ ok (parent, name)
  unfolding resolve_components
  resolve_components-Extends [] parent name h = h
  resolve_components-Extends (c ∷ names) parent name h =
      elim (Result-cases (walk dirs 1 (init_last c names).0)) [
        | inl (s, failed) ↦ ground arith
        | inr (p, walked) ↦ ground (arith, walked, walk-Extends (init_last c names).0 1 p walked)
      ]

  -- A path that resolves still does, to the same parent and name.
  pub resolve_path-Extends :
      (path : Name) (parent : ℕ) (name : Name)
      → resolve_path dirs path ≡ ok (parent, name)
      → resolve_path dirs' path ≡ ok (parent, name)
  unfolding resolve_path
  resolve_path-Extends path parent name h =
      ground (arith, resolve_components-Extends (split_path [] path) parent name)

-- The state after a creation shows everything that the state before showed.
pub record Grows (ns ns' : Namespace) : Type 0 where
  pub extends : Extends ns.dir_entries ns'.dir_entries
  pub keeps :
      (k : ℕ) (i : Inode)
      → Map.find k ns.inode_table.inodes ≡ some i
      → Map.find k ns'.inode_table.inodes ≡ some i

pub lookup-Grows :
    (ns ns' : Namespace) (path : Name) (i : Inode)
    → Grows ns ns'
    → lookup ns path ≡ ok i
    → lookup ns' path ≡ ok i
unfolding lookup InodeTable.get
lookup-Grows ns ns' path i g h = elim (Bool-cases (is_root path)) [
  | inl root ↦ elim (Option-cases (Map.find 1 ns.inode_table.inodes)) [
    | inl absent ↦ ground arith
    | inr (j, present) ↦ ground (arith, g.keeps 1 j present)
  ]
  | inr other ↦ elim (Result-cases (resolve_path ns.dir_entries path)) [
    | inl (s, failed) ↦ ground arith
    | inr ((parent, name), resolved) ↦ elim (Option-cases (Map.find parent ns.dir_entries)) [
      | inl missing ↦ ground arith
      | inr (es, listed) ↦ elim (Option-cases (find_first (named name) es)) [
        | inl absent ↦ ground arith
        | inr (e, found) ↦ elim (Option-cases (Map.find e.inode_id ns.inode_table.inodes)) [
          | inl lost ↦ ground arith
          | inr (j, present) ↦
              let (more, listed') = g.extends parent es listed in
              ground (
                arith,
                resolve_path-Extends ns.dir_entries ns'.dir_entries g.extends path parent name
                    resolved,
                listed',
                find_first-append (named name) es more found,
                g.keeps e.inode_id j present,
              )
        ]
      ]
    ]
  ]
]
