-- ===== src/Meta/Path.antt =====
-- The path resolution of src/meta/namespace_manager.cpp (`ResolvePath`).
pub mod Print
use openfs.Common.{
  ℕ, List, [], ◌∷◌, ◌++◌, Option, none, some, Bool, true, false, ◌&&◌, ◌==◌, eqs, if◌then◌else◌,
  find_first,
}
use openfs.Common.Map
use openfs.Common.Map.{Map}
use openfs.Types.{
  Name, DirEntry, InodeType, regular, directory, symlink, Result, ok, err, ◌>>=◌, not_found,
  invalid_argument,
}

-- `dir_entries_`: the entries of each directory, by its inode id.
abbrev pub Dirs : Type 0
Dirs = Map (List DirEntry)

unfoldable pub is_directory : InodeType → Bool
is_directory regular = false
is_directory directory = true
is_directory symlink = false

unfoldable pub is_regular : InodeType → Bool
is_regular regular = true
is_regular directory = false
is_regular symlink = false

-- The tests of the loops over the entries of a directory.
abbrev pub named : Name → DirEntry → Bool
named name entry = eqs entry.name name

abbrev pub directory_named : Name → DirEntry → Bool
directory_named name entry = eqs entry.name name && is_directory entry.file_type

abbrev pub file_named : Name → DirEntry → Bool
file_named name entry = eqs entry.name name && is_regular entry.file_type

-- `if (!token.empty()) components.push_back(token);`
abbrev pub push_token : Name → List Name → List Name
push_token [] components = components
push_token (c ∷ token) components = (c ∷ token) ∷ components

-- The loop over `std::getline(iss, token, '/')`; `token` is what was read of the current token.
unfoldable pub split_path : Name → Name → List Name
split_path token [] = push_token token []
split_path token (c ∷ path) = elim (c == b'/') [
  | true ↦ push_token token (split_path [] path)
  | false ↦ split_path (token ++ c ∷ []) path
]

-- All components but the last, and the last.
unfoldable pub init_last : Name → List Name → List Name × Name
init_last c [] = ([], c)
init_last c (d ∷ components) = let (front, last) = init_last d components in (c ∷ front, last)

-- The walk over the tree from `current` to the parent of the last component.
unfoldable pub walk : Dirs → ℕ → List Name → Result ℕ
walk dirs current [] = ok current
walk dirs current (name ∷ names) = elim (Map.find current dirs) [
  | none ↦ err not_found
  | some entries ↦ elim (find_first (directory_named name) entries) [
    | none ↦ err not_found
    | some entry ↦ walk dirs entry.inode_id names
  ]
]

unfoldable pub starts_with_slash : Name → Bool
starts_with_slash [] = false
starts_with_slash (c ∷ path) = c == b'/'

-- `path == "/"`
unfoldable pub is_root : Name → Bool
is_root path = eqs path (b'/' ∷ [])

-- What `ResolvePath` does with the components.
unfoldable pub resolve_components : Dirs → List Name → Result (ℕ × Name)
unfolding walk init_last
resolve_components dirs [] = err invalid_argument
resolve_components dirs (c ∷ components) =
    let (front, filename) = init_last c components in
    do parent ← walk dirs 1 front; ok (parent, filename)

unfoldable pub resolve_path : Dirs → Name → Result (ℕ × Name)
resolve_path dirs path =
    if starts_with_slash path
    then (if is_root path then ok (1, []) else resolve_components dirs (split_path [] path))
    else err invalid_argument
