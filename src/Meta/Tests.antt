-- ===== src/Meta/Tests.antt =====
-- Runs of the namespace operations, and instances of the theorems about them.
use openfs.Common.{
  ℕ, ◌≡◌, ◌≢◌, refl, List, [], ◌∷◌, some, none, arith, eqs, find_first, erase_first,
}
use openfs.Common.Map
use openfs.Types.{
  Name, DirEntry, Inode, directory, regular, ok, err, already_exists, not_found, select_block_level,
}
use openfs.Meta.InodeTable
use openfs.Meta.Path.{
  split_path, resolve_components, resolve_path, is_root, starts_with_slash, is_directory,
  is_regular, named,
}
use openfs.Meta.Namespace
use openfs.Meta.Namespace.{
  Namespace, Owner, init, mkdir, create_file, delete_file, rmdir, rename, lookup, read_dir,
}
use openfs.Meta.Namespace.Entries.{Linked}
use openfs.Meta.Namespace.Consistency.{IsConsistent}
use openfs.Meta.Namespace.History
use openfs.Meta.Namespace.History.{
  Request, mkdir_request, create_request, rename_request, step, run,
}
use openfs.Meta.Namespace.Creation
use openfs.Meta.Namespace.Renaming

program : Unit {0}
unfolding Namespace.rename_into Namespace.add_file Namespace.add_directory mkdir create_file
    delete_file rmdir rename lookup read_dir init resolve_path resolve_components split_path is_root
    starts_with_slash is_directory is_regular eqs find_first erase_first Map.find Map.put Map.erase
    InodeTable.init InodeTable.get InodeTable.create InodeTable.update InodeTable.delete
    InodeTable.allocate_inode_id select_block_level step run
program = tt

-- "/a", "/b", "/d/f"
abbrev path_a : Name
path_a = b'/' ∷ b'a' ∷ []

abbrev path_b : Name
path_b = b'/' ∷ b'b' ∷ []

abbrev path_d : Name
path_d = b'/' ∷ b'd' ∷ []

abbrev path_df : Name
path_df = b'/' ∷ b'd' ∷ b'/' ∷ b'f' ∷ []

abbrev root_user : Owner
root_user = record { mode = 0o755; uid = 0; gid = 0 }

abbrev requests : List Request
requests =
    mkdir_request path_d root_user 10
    ∷ create_request path_a root_user 7 11
    ∷ create_request path_b root_user 8 12
    ∷ []

abbrev sample : Namespace
sample = run (init 1) requests

split_runs : split_path [] path_df ≡ (b'd' ∷ []) ∷ (b'f' ∷ []) ∷ []
unfolding program
split_runs = refl

sample_lookup :
    (create_file sample path_df root_user 9 13).1
    ≡ ok (Namespace.new_file 5 2 (b'f' ∷ []) root_user 9 13)
unfolding program
sample_lookup = refl

-- The destination is taken: the call fails, and the source is gone.
rename_loses :
    ((rename sample path_a path_b 20).1 ≡ err already_exists)
    × (lookup (rename sample path_a path_b 20).0 path_a ≡ err not_found)
unfolding program
rename_loses = (refl, refl)

run-IsConsistent_example : IsConsistent sample
unfolding program
run-IsConsistent_example =
    History.run-IsConsistent (init 1) requests (History.init-IsConsistent 1) (omega arith)

step_unchanged_example : (step sample (create_request path_a root_user 1 30)).0 ≡ sample
unfolding program
step_unchanged_example =
    History.step_unchanged sample (create_request path_a root_user 1 30) already_exists
      run-IsConsistent_example (omega arith) (λ h. h) refl

file_df : Inode
file_df = Namespace.new_file 5 2 (b'f' ∷ []) root_user 9 13

create_file-lookup_example :
    (lookup (create_file sample path_df root_user 9 13).0 path_df ≡ ok file_df)
    × ((q : Name) (j : Inode)
        → lookup sample q ≡ ok j
        → lookup (create_file sample path_df root_user 9 13).0 q ≡ ok j)
unfolding program file_df
create_file-lookup_example =
    Creation.create_file-lookup sample run-IsConsistent_example (omega arith) path_df root_user 9 13
      file_df refl refl

path_de : Name
path_de = b'/' ∷ b'd' ∷ b'/' ∷ b'e' ∷ []

dir_de : Inode
dir_de = Namespace.new_directory 5 2 (b'e' ∷ []) root_user 14

mkdir-lookup_example :
    (lookup (mkdir sample path_de root_user 14).0 path_de ≡ ok dir_de)
    × (Map.find dir_de.inode_id (mkdir sample path_de root_user 14).0.dir_entries ≡ some [])
    × ((q : Name) (j : Inode)
        → lookup sample q ≡ ok j
        → lookup (mkdir sample path_de root_user 14).0 q ≡ ok j)
unfolding program dir_de path_de
mkdir-lookup_example =
    Creation.mkdir-lookup sample run-IsConsistent_example (omega arith) path_de root_user 14 dir_de
      refl refl

delete_file-create_file_example :
    ((delete_file (create_file sample path_df root_user 9 13).0 path_df).1 ≡ ok tt)
    × ((k : ℕ)
        → Map.find k
            (delete_file (create_file sample path_df root_user 9 13).0 path_df).0.dir_entries
          ≡ Map.find k sample.dir_entries)
    × ((k : ℕ)
        → Map.find k
            (delete_file (create_file sample path_df root_user 9 13).0 path_df).0.inode_table.inodes
          ≡ Map.find k sample.inode_table.inodes)
unfolding program file_df
delete_file-create_file_example =
    Creation.delete_file-create_file sample path_df root_user 9 13 file_df run-IsConsistent_example
      (omega arith) refl

abbrev root_entries : List DirEntry
root_entries =
    record { name = b'd' ∷ []; inode_id = 2; file_type = directory }
    ∷ record { name = b'a' ∷ []; inode_id = 3; file_type = regular }
    ∷ record { name = b'b' ∷ []; inode_id = 4; file_type = regular }
    ∷ []

abbrev entry_a : DirEntry
entry_a = record { name = b'a' ∷ []; inode_id = 3; file_type = regular }

-- "/a" moves to "/d/f".
rename_effect_example :
    (find_first (named (b'f' ∷ [])) [] ≡ none
      → ((rename sample path_a path_df 20).1 ≡ ok tt)
        × (Map.find 2 (rename sample path_a path_df 20).0.dir_entries
            ≡ some (record entry_a { name = b'f' ∷ [] } ∷ []))
        × (find_first (named (b'a' ∷ [])) (erase_first (named (b'a' ∷ [])) root_entries) ≡ none)
        × (◌≢◌ {A = ℕ} 1 2
            → Map.find 1 (rename sample path_a path_df 20).0.dir_entries
              ≡ some (erase_first (named (b'a' ∷ [])) root_entries))
        × ((k : ℕ)
            → k ≢ 1
            → k ≢ 2
            → Map.find k (rename sample path_a path_df 20).0.dir_entries
              ≡ Map.find k sample.dir_entries)
        × Linked
            (rename sample path_a path_df 20).0.inode_table.inodes
            2
            (record entry_a { name = b'f' ∷ [] })
        × ((k : ℕ)
            → k ≢ 3
            → Map.find k (rename sample path_a path_df 20).0.inode_table.inodes
              ≡ Map.find k sample.inode_table.inodes))
    × ((f : DirEntry)
        → find_first (named (b'f' ∷ [])) [] ≡ some f
        → ((rename sample path_a path_df 20).1 ≡ err already_exists)
          × (Map.find 1 (rename sample path_a path_df 20).0.dir_entries
              ≡ some (erase_first (named (b'a' ∷ [])) root_entries))
          × (find_first (named (b'a' ∷ [])) (erase_first (named (b'a' ∷ [])) root_entries) ≡ none)
          × ((rename sample path_a path_df 20).0.inode_table ≡ sample.inode_table))
unfolding program
rename_effect_example =
    Renaming.rename_effect sample path_a path_df 20 1 2 (b'a' ∷ []) (b'f' ∷ []) root_entries []
      entry_a run-IsConsistent_example refl refl refl refl refl
