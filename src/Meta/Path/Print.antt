-- ===== src/Meta/Path/Print.antt =====
-- Splitting a path into components, against writing components as a path.
use openfs.Common.{
  List, [], ◌∷◌, ◌++◌, ◌≡◌, ◌≢◌, ◌∙◌, refl, ap, ◌==◌, ==_iff, All, append_assoc, append-nil, sym,
  Bool-cases, inl, inr,
}
use openfs.Types.{Name}
use openfs.Meta.Path.{split_path, push_token}

-- A component that a path can hold: not empty, and without a slash.
abbrev pub IsComponent : Name → Type 0
IsComponent name = (name ≢ []) × All (λ c. c ≢ b'/') name

-- The path `/c1/c2/...`.
unfoldable pub print_path : List Name → Name
print_path [] = []
print_path (c ∷ components) = b'/' ∷ (c ++ print_path components)

-- A stretch of the path with no slash goes to the current token.
split_path-append :
    (token name path : Name)
    → All (λ c. c ≢ b'/') name
    → split_path token (name ++ path) ≡ split_path (token ++ name) path
unfolding split_path
split_path-append token [] path h = ap (λ t. split_path t path) (sym (append-nil token))
split_path-append token (c ∷ name) path h = elim (Bool-cases (c == b'/')) [
  | inl slash ↦ absurd (h.0 ((==_iff c b'/').0 slash))
  | inr other ↦
      rw (other, split_path)
        (split_path-append (token ++ c ∷ []) name path h.1
          ∙ ap (λ t. split_path t path) (append_assoc token (c ∷ []) name))
]

push_token-ne_nil :
    (token : Name) (rest : List Name) → token ≢ [] → push_token token rest ≡ token ∷ rest
push_token-ne_nil [] rest h = absurd (h refl)
push_token-ne_nil (c ∷ token) rest h = refl

-- What was read so far ends where the next printed component begins.
split_path-print_path_from :
    (token : Name) (components : List Name)
    → All IsComponent components
    → split_path token (print_path components) ≡ push_token token components
unfolding split_path print_path
split_path-print_path_from token [] h = refl
split_path-print_path_from token (c ∷ components) h = ap (push_token token) (
    split_path-append [] c (print_path components) h.0.1
    ∙ split_path-print_path_from c components h.1
    ∙ push_token-ne_nil c components h.0.0)

-- Splitting the path that is printed from components gives these components, when none is empty
-- or holds a slash.
pub split_path-print_path :
    (components : List Name)
    → All IsComponent components
    → split_path [] (print_path components) ≡ components
split_path-print_path components h = split_path-print_path_from [] components h
