-- ===== src/Meta/Namespace/History.antt =====
-- Runs of requests on the namespace: every state that requests can reach keeps the invariant, and a
-- request that fails, a rename excepted, changes nothing.
use openfs.Common.{
  ℕ, List, [], ◌∷◌, ◌+◌, ◌<◌, ◌≤◌, ◌≡◌, inl, inr, Option, some, none, arith, length, Option-cases,
  u64_mod,
}
use openfs.Common.Map
use openfs.Common.Map.{Map}
use openfs.Types.{Name, Status, Result, ok, err, Result-cases}
use openfs.Meta.InodeTable
use openfs.Meta.InodeTable.{InodeTable}
use openfs.Meta.Path.{resolve_path}
use openfs.Meta.Namespace.{
  Namespace, Owner, init, mkdir, rmdir, create_file, delete_file, rename, rename_into, add_file,
  add_directory,
}
use openfs.Meta.Namespace.Consistency.{IsConsistent}
use openfs.Meta.Namespace.Preservation.{
  HasRoom, mkdir-IsConsistent, rmdir-IsConsistent, create_file-IsConsistent,
  delete_file-IsConsistent, add_directory_lem, add_file_lem,
}
use openfs.Meta.Namespace.Renaming.{rename-IsConsistent}

-- A request that changes the namespace, with the reading of the clock that it meets.
pub data Request : Type 0 where
  mkdir_request : Name → Owner → ℕ → Request
  rmdir_request : Name → Request
  create_request : Name → Owner → ℕ → ℕ → Request
  delete_request : Name → Request
  rename_request : Name → Name → ℕ → Request

-- The status that goes back to the client; `none` is `kOk`.
abbrev pub status {ℓ} : {A : Type ℓ} → Result A → Option Status
status (ok a) = none
status (err s) = some s

unfoldable pub step : Namespace → Request → Namespace × Option Status
step ns (mkdir_request p o now) = let (ns', r) = mkdir ns p o now in (ns', status r)
step ns (rmdir_request p) = let (ns', r) = rmdir ns p in (ns', status r)
step ns (create_request p o size now) =
    let (ns', r) = create_file ns p o size now in (ns', status r)
step ns (delete_request p) = let (ns', r) = delete_file ns p in (ns', status r)
step ns (rename_request p q now) = let (ns', r) = rename ns p q now in (ns', status r)

unfoldable pub run : Namespace → List Request → Namespace
run ns [] = ns
run ns (r ∷ rs) = run (step ns r).0 rs

pub init-IsConsistent : (now : ℕ) → IsConsistent (init now)
unfolding init InodeTable.init Map.find
init-IsConsistent now = record {
  good = λ k es h. ground arith;
  dir_below = λ k es h. ground arith;
  inode_below = λ k i h. ground arith;
  own_id = λ k i h. ground arith;
  root_below = omega arith;
}

step-IsConsistent :
    (ns : Namespace) (r : Request) → IsConsistent ns → HasRoom ns → IsConsistent (step ns r).0
unfolding step
step-IsConsistent ns (mkdir_request p o now) c room = mkdir-IsConsistent ns c room p o now
step-IsConsistent ns (rmdir_request p) c room = rmdir-IsConsistent ns p c
step-IsConsistent ns (create_request p o size now) c room =
    create_file-IsConsistent ns c room p o size now
step-IsConsistent ns (delete_request p) c room = delete_file-IsConsistent ns p c
step-IsConsistent ns (rename_request p q now) c room = rename-IsConsistent ns p q now c

abbrev next_id : Namespace → ℕ
next_id ns = ns.inode_table.next_inode_id

-- A request takes at most one inode id.
step-next_id : (ns : Namespace) (r : Request) → HasRoom ns → next_id (step ns r).0 ≤ next_id ns + 1
unfolding step mkdir rmdir create_file delete_file rename rename_into add_file add_directory
    InodeTable.create InodeTable.delete InodeTable.update InodeTable.get
    InodeTable.allocate_inode_id
step-next_id ns (mkdir_request p o now) room = ground arith
step-next_id ns (rmdir_request p) room = ground arith
step-next_id ns (create_request p o size now) room = ground arith
step-next_id ns (delete_request p) room = ground arith
step-next_id ns (rename_request p q now) room = ground arith

-- From a consistent namespace, any sequence of MkDir, CreateFile, DeleteFile, RmDir and Rename
-- requests leaves it consistent, as long as the inode ids do not run out: every entry of a
-- directory has an inode of its id, type, name and parent, and the names and the inode ids within
-- a directory are distinct.
pub run-IsConsistent :
    (ns : Namespace) (rs : List Request)
    → IsConsistent ns
    → ns.inode_table.next_inode_id + length rs < u64_mod
    → IsConsistent (run ns rs)
unfolding run
run-IsConsistent ns [] c room = c
run-IsConsistent ns (r ∷ rs) c room =
    run-IsConsistent (step ns r).0 rs (step-IsConsistent ns r c (omega arith))
      (omega (arith, step-next_id ns r (omega arith)))

-- The requests to rename.
abbrev pub IsRename : Request → Type 0
IsRename (rename_request p q now) = Unit
IsRename r = ⊥

-- A request other than Rename that fails leaves a consistent namespace with ids left exactly as
-- it was.
pub step_unchanged :
    (ns : Namespace) (r : Request) (s : Status)
    → IsConsistent ns
    → HasRoom ns
    → ¬ IsRename r
    → (step ns r).1 ≡ some s
    → (step ns r).0 ≡ ns
unfolding step mkdir rmdir create_file delete_file
step_unchanged ns (mkdir_request p o now) s c room other h =
    elim (Result-cases (resolve_path ns.dir_entries p)) [
      | inl (_, failed) ↦ ground arith
      | inr ((parent, name), resolved) ↦
          ground (arith, resolved, add_directory_lem ns c room parent name o now)
    ]
step_unchanged ns (rmdir_request p) s c room other h = ground arith
step_unchanged ns (create_request p o size now) s c room other h =
    elim (Result-cases (resolve_path ns.dir_entries p)) [
      | inl (_, failed) ↦ ground arith
      | inr ((parent, name), resolved) ↦ elim (Option-cases (Map.find parent ns.dir_entries)) [
        | inl missing ↦ ground arith
        | inr (es, listed) ↦
            ground (arith, resolved, listed, add_file_lem ns c room parent es name o size now)
      ]
    ]
step_unchanged ns (delete_request p) s c room other h = ground arith
step_unchanged ns (rename_request p q now) s c room other h = absurd (other tt)
