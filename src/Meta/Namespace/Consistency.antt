-- ===== src/Meta/Namespace/Consistency.antt =====
-- The invariant of the directory tree, directories and inodes that point at one another, and the
-- changes that keep it.
use openfs.Common.{
  ℕ, List, [], ◌∷◌, ◌++◌, ◌<◌, ◌≤◌, ◌≡◌, ◌≢◌, ◌⊎◌, inl, inr, refl, ap, sym, ◌∙◌, some, none, Bool,
  arith, All, All-map, All-map₂, All-append, All-erase_first, All-find_first, find_first,
  erase_first, Option-cases,
}
use native.Mathlib.Decide.{ℕ_discrete}
use openfs.Common.Map
use openfs.Common.Map.{Map, find-put, find-erase}
use openfs.Types.{Name, DirEntry, Inode, ok}
use openfs.Meta.Path.{Dirs, named, directory_named, walk}
use openfs.Meta.Namespace.{Namespace}
use openfs.Meta.Namespace.Entries.{
  DistinctNames, Linked, DistinctNames-erase_first, DistinctNames-append, erased-ne, Linked-put,
  Linked-erase, ids_differ,
}

-- The entries of one directory are right: distinct names, and an inode behind each.
abbrev pub GoodEntries : Map Inode → ℕ → List DirEntry → Type 0
GoodEntries inodes k es = DistinctNames es × All (Linked inodes k) es

-- `next` bounds every id in use, so that the next one is fresh.
pub record Consistent (dirs : Dirs) (inodes : Map Inode) (next : ℕ) : Type 0 where
  pub good : (k : ℕ) (es : List DirEntry) → Map.find k dirs ≡ some es → GoodEntries inodes k es
  pub dir_below : (k : ℕ) (es : List DirEntry) → Map.find k dirs ≡ some es → k < next
  pub inode_below : (k : ℕ) (i : Inode) → Map.find k inodes ≡ some i → k < next
  pub own_id : (k : ℕ) (i : Inode) → Map.find k inodes ≡ some i → i.inode_id ≡ k
  pub root_below : 1 < next

abbrev pub IsConsistent : Namespace → Type 0
IsConsistent ns = Consistent ns.dir_entries ns.inode_table.inodes ns.inode_table.next_inode_id

-- How a map that had one key written answers.
find-put_cases :
    {V : Type 0} (k j : ℕ) (v w : V) (m : Map V)
    → Map.find k (Map.put j v m) ≡ some w
    → ((k ≡ j) × (v ≡ w)) ⊎ ((k ≢ j) × (Map.find k m ≡ some w))
find-put_cases k j v w m h = elim (ℕ_discrete k j) [
  | yes same ↦ inl (same, ground (arith, find-put k j v m))
  | no other ↦ inr (other, ground (arith, find-put k j v m))
]

find-erase-some :
    {V : Type 0} (k j : ℕ) (w : V) (m : Map V)
    → Map.find k (Map.erase j m) ≡ some w
    → Map.find k m ≡ some w
find-erase-some k j w m h = ground (arith, find-erase k j m)

module _ {dirs : Dirs} {inodes : Map Inode} {next : ℕ} (c : Consistent dirs inodes next) where
  -- An entry is erased from directory `k`, and nothing else changes.
  pub erase_entry :
      (p : DirEntry → Bool) (k : ℕ) (es : List DirEntry)
      → Map.find k dirs ≡ some es
      → Consistent (Map.put k (erase_first p es) dirs) inodes next
  erase_entry p k es at_k = record {
    good = λ j fs h. elim (find-put_cases j k (erase_first p es) fs dirs h) [
      | inl (same, e) ↦
          rw (same, ← e)
            (
              DistinctNames-erase_first p es (c.good k es at_k).0,
              All-erase_first p (Linked inodes k) es (c.good k es at_k).1,
            )
      | inr (other, old) ↦ c.good j fs old
    ];
    dir_below = λ j fs h. elim (find-put_cases j k (erase_first p es) fs dirs h) [
      | inl (same, e) ↦ rw same (c.dir_below k es at_k)
      | inr (other, old) ↦ c.dir_below j fs old
    ];
    inode_below = c.inode_below;
    own_id = c.own_id;
    root_below = c.root_below;
  }

  -- An entry is erased from directory `k`, and its inode from the table.
  pub erase_entry_inode :
      (p : DirEntry → Bool) (k : ℕ) (es : List DirEntry) (e : DirEntry)
      → Map.find k dirs ≡ some es
      → find_first p es ≡ some e
      → Consistent (Map.put k (erase_first p es) dirs) (Map.erase e.inode_id inodes) next
  erase_entry_inode p k es e at_k found = record {
    good = λ j fs h. elim (find-put_cases j k (erase_first p es) fs dirs h) [
      | inl (same, q) ↦
          rw (same, ← q)
            (
              DistinctNames-erase_first p es here.0,
              All-map₂ (Linked inodes k) (λ (f : DirEntry). f.name ≢ e.name) _ (erase_first p es)
                  (λ f l ne. Linked-erase inodes e.inode_id l (ids_differ inodes l linked (inr ne)))
                  (All-erase_first p (Linked inodes k) es here.1) (erased-ne p es e here.0 found),
            )
      | inr (other, old) ↦
          let (distinct, links) = c.good j fs old in
          (
            distinct,
            All-map (Linked inodes j) (Linked (Map.erase e.inode_id inodes) j) fs
                (λ f l. Linked-erase inodes e.inode_id l (ids_differ inodes l linked (inl other)))
                links,
          )
    ];
    dir_below = (erase_entry p k es at_k).dir_below;
    inode_below = λ j i h. c.inode_below j i (find-erase-some j e.inode_id i inodes h);
    own_id = λ j i h. c.own_id j i (find-erase-some j e.inode_id i inodes h);
    root_below = c.root_below;
  }
    where
      here : GoodEntries inodes k es
      here = c.good k es at_k

      linked : Linked inodes k e
      linked = All-find_first p (Linked inodes k) es here.1 found

  -- A new entry for an inode that the table does not hold yet.
  pub add_entry :
      (k next' : ℕ) (es : List DirEntry) (e : DirEntry) (i : Inode)
      → GoodEntries inodes k es
      → k < next'
      → next ≤ next'
      → i.inode_id < next'
      → Map.find i.inode_id inodes ≡ none
      → Linked (Map.put i.inode_id i inodes) k e
      → find_first (named e.name) es ≡ none
      → Consistent (Map.put k (es ++ e ∷ []) dirs) (Map.put i.inode_id i inodes) next'
  add_entry k next' es e i (distinct, links) k_below le id_below absent linked name_free = record {
    good = λ j fs h. elim (find-put_cases j k (es ++ e ∷ []) fs dirs h) [
      | inl (same, q) ↦
          rw (same, ← q)
            (
              DistinctNames-append es e distinct name_free,
              All-append (Linked inodes' k) es (e ∷ []) (kept k es links) (linked, tt),
            )
      | inr (other, old) ↦ let (d, l) = c.good j fs old in (d, kept j fs l)
    ];
    dir_below = λ j fs h. elim (find-put_cases j k (es ++ e ∷ []) fs dirs h) [
      | inl (same, q) ↦ rw same k_below
      | inr (other, old) ↦ omega (arith, c.dir_below j fs old)
    ];
    inode_below = λ j w h. elim (find-put_cases j i.inode_id i w inodes h) [
      | inl (same, q) ↦ rw same id_below
      | inr (other, old) ↦ omega (arith, c.inode_below j w old)
    ];
    own_id = λ j w h. elim (find-put_cases j i.inode_id i w inodes h) [
      | inl (same, q) ↦ rw (← q, same) refl
      | inr (other, old) ↦ c.own_id j w old
    ];
    root_below = omega (arith, c.root_below);
  }
    where
      inodes' : Map Inode
      inodes' = Map.put i.inode_id i inodes

      kept : (j : ℕ) (fs : List DirEntry) → All (Linked inodes j) fs → All (Linked inodes' j) fs
      kept j fs =
          All-map (Linked inodes j) (Linked inodes' j) fs
            (λ f l. Linked-put inodes i.inode_id i l (λ same. cc (l.present, absent, same)))

  -- A directory gets an empty list of entries.
  pub empty_directory : (k : ℕ) → k < next → Consistent (Map.put k [] dirs) inodes next
  empty_directory k below = record {
    good = λ j fs h. elim (find-put_cases j k [] fs dirs h) [
      | inl (same, q) ↦ rw (← q) (tt, tt)
      | inr (other, old) ↦ c.good j fs old
    ];
    dir_below = λ j fs h. elim (find-put_cases j k [] fs dirs h) [
      | inl (same, q) ↦ rw same below
      | inr (other, old) ↦ c.dir_below j fs old
    ];
    inode_below = c.inode_below;
    own_id = c.own_id;
    root_below = c.root_below;
  }

  -- A directory loses its entries.
  pub drop_directory : (k : ℕ) → Consistent (Map.erase k dirs) inodes next
  drop_directory k = record {
    good = λ j fs h. c.good j fs (find-erase-some j k fs dirs h);
    dir_below = λ j fs h. c.dir_below j fs (find-erase-some j k fs dirs h);
    inode_below = c.inode_below;
    own_id = c.own_id;
    root_below = c.root_below;
  }

  -- Only what the table answers matters, not how it is stored.
  pub same_table :
      (inodes' : Map Inode)
      → ((k : ℕ) → Map.find k inodes' ≡ Map.find k inodes)
      → Consistent dirs inodes' next
  same_table inodes' same = record {
    good = λ j fs h.
        let (d, l) = c.good j fs h in
        (
          d,
          All-map (Linked inodes j) (Linked inodes' j) fs
              (λ f m. record {
                inode = m.inode;
                present = same f.inode_id ∙ m.present;
                same_id = m.same_id;
                same_type = m.same_type;
                same_parent = m.same_parent;
                same_name = m.same_name;
              })
              l,
        );
    dir_below = c.dir_below;
    inode_below = λ j i h. c.inode_below j i (sym (same j) ∙ h);
    own_id = λ j i h. c.own_id j i (sym (same j) ∙ h);
    root_below = c.root_below;
  }

  -- An inode is replaced by one of the same id, type, name and parent.
  pub refresh_inode :
      (old new : Inode)
      → Map.find old.inode_id inodes ≡ some old
      → new.inode_id ≡ old.inode_id
      → new.file_type ≡ old.file_type
      → new.parent_id ≡ old.parent_id
      → new.name ≡ old.name
      → Consistent dirs (Map.put old.inode_id new inodes) next
  refresh_inode old new present same_id same_type same_parent same_name = record {
    good = λ j fs h.
        let (d, l) = c.good j fs h in
        (
          d,
          All-map (Linked inodes j) (Linked (Map.put old.inode_id new inodes) j) fs (refreshed j) l,
        );
    dir_below = c.dir_below;
    inode_below = λ j w h. elim (find-put_cases j old.inode_id new w inodes h) [
      | inl (same, q) ↦ rw same (c.inode_below old.inode_id old present)
      | inr (other, before) ↦ c.inode_below j w before
    ];
    own_id = λ j w h. elim (find-put_cases j old.inode_id new w inodes h) [
      | inl (same, q) ↦ rw (← q, same) same_id
      | inr (other, before) ↦ c.own_id j w before
    ];
    root_below = c.root_below;
  }
    where
      refreshed :
          (j : ℕ) (f : DirEntry) → Linked inodes j f → Linked (Map.put old.inode_id new inodes) j f
      refreshed j f l = elim (ℕ_discrete f.inode_id old.inode_id) [
        | no other ↦ Linked-put inodes old.inode_id new l other
        | yes same ↦
            let one : l.inode ≡ old = cc (l.present, present, same) in
            record {
              inode = new;
              present = ground (arith, find-put f.inode_id old.inode_id new inodes, same);
              same_id = same_id ∙ sym same;
              same_type = same_type ∙ sym (ap (λ (i : Inode). i.file_type) one) ∙ l.same_type;
              same_parent = same_parent ∙ sym (ap (λ (i : Inode). i.parent_id) one) ∙ l.same_parent;
              same_name = same_name ∙ sym (ap (λ (i : Inode). i.name) one) ∙ l.same_name;
            }
      ]

  -- A walk ends at an id in use.
  pub walk-below :
      (names : List Name) (current p : ℕ)
      → current < next
      → walk dirs current names ≡ ok p
      → p < next
  unfolding walk
  walk-below [] current p below h = ground arith
  walk-below (name ∷ names) current p below h = elim (Option-cases (Map.find current dirs)) [
    | inl missing ↦ ground arith
    | inr (es, at_current) ↦ elim (Option-cases (find_first (directory_named name) es)) [
      | inl missing ↦ ground arith
      | inr (e, found) ↦
          let linked =
            All-find_first (directory_named name) (Linked inodes current) es
              (c.good current es at_current).1 found in
          walk-below names e.inode_id p (c.inode_below e.inode_id linked.inode linked.present)
            (ground arith)
    ]
  ]
