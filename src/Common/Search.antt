-- ===== src/Common/Search.antt =====
-- The first element of a list that passes a test, and the list without it.
use mathlib.Core.Path.{◌≡◌, refl, subst}
use mathlib.Core.Bool.{Bool, true}
use mathlib.Core.Logic.{inl, inr}
use mathlib.Core.List.{List, [], ◌∷◌, ◌++◌}
use mathlib.Core.Option.{Option, none, some}
use native.Mathlib.Omega.{arith}
use openfs.Common.Bools.{if◌then◌else◌, Bool-cases}
use openfs.Common.Lists.{All}

module _ {ℓ} {A : Type ℓ} (p : A → Bool) where
  unfoldable pub find_first : List A → Option A
  find_first [] = none
  find_first (x ∷ xs) = if p x then some x else find_first xs

  unfoldable pub erase_first : List A → List A
  erase_first [] = []
  erase_first (x ∷ xs) = if p x then xs else x ∷ erase_first xs

  pub find_first-append :
      (xs ys : List A) {x : A} → find_first xs ≡ some x → find_first (xs ++ ys) ≡ some x
  unfolding find_first
  find_first-append [] ys h = cc
  find_first-append (y ∷ xs) ys {x} h = ground (arith, find_first-append xs ys {x = x})

  pub find_first-append_none :
      (xs ys : List A) → find_first xs ≡ none → find_first (xs ++ ys) ≡ find_first ys
  unfolding find_first
  find_first-append_none [] ys h = refl
  find_first-append_none (y ∷ xs) ys h = ground (arith, find_first-append_none xs ys)

  pub erase_first-append_none :
      (xs ys : List A) → find_first xs ≡ none → erase_first (xs ++ ys) ≡ xs ++ erase_first ys
  unfolding find_first erase_first
  erase_first-append_none [] ys h = refl
  erase_first-append_none (y ∷ xs) ys h = ground (arith, erase_first-append_none xs ys)

  pub find_first-passes : (xs : List A) {x : A} → find_first xs ≡ some x → p x ≡ true
  unfolding find_first
  find_first-passes [] h = cc
  find_first-passes (y ∷ xs) {x} h = ground (arith, find_first-passes xs {x = x})

  module _ {κ} (P : A → Type κ) where
    pub All-find_first : (xs : List A) {x : A} → All P xs → find_first xs ≡ some x → P x
    unfolding find_first
    All-find_first [] a h = cc
    All-find_first (y ∷ xs) {x} (a, b) h = elim (Bool-cases (p y)) [
      | inl found ↦ let same : y ≡ x = ground arith in subst P same a
      | inr other ↦ All-find_first xs b (ground arith)
    ]

    pub All-erase_first : (xs : List A) → All P xs → All P (erase_first xs)
    unfolding erase_first
    All-erase_first [] a = tt
    All-erase_first (y ∷ xs) (a, b) = elim (Bool-cases (p y)) [
      | inl found ↦ rw found b
      | inr other ↦ rw other (a, All-erase_first xs b)
    ]
