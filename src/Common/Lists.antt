-- ===== src/Common/Lists.antt =====
-- Lists measured and indexed by native numbers, and predicates that hold of every element.
use Prim.Native.Nat.{ℕ, zero, suc, ◌+◌, ◌<◌, ◌≤◌}
use mathlib.Core.Path.{◌≡◌, refl, sym, ap, ◌∙◌}
use mathlib.Core.Logic.{◌≢◌}
use mathlib.Core.List.{List, [], ◌∷◌, ◌++◌}
use mathlib.Core.Option.{Option, none, some}
use native.Mathlib.Omega.{arith}

module _ {ℓ} {A : Type ℓ} where
  abbrev pub length : List A → ℕ
  length [] = 0
  length (x ∷ xs) = suc (length xs)

  abbrev pub get_elem? : List A → ℕ → Option A
  get_elem? [] i = none
  get_elem? (x ∷ xs) zero = some x
  get_elem? (x ∷ xs) (suc i) = get_elem? xs i

  abbrev pub get_or : List A → ℕ → A → A
  get_or [] i d = d
  get_or (x ∷ xs) zero d = x
  get_or (x ∷ xs) (suc i) d = get_or xs i d

  -- A write out of bounds changes nothing.
  abbrev pub set : List A → ℕ → A → List A
  set [] i v = []
  set (x ∷ xs) zero v = v ∷ xs
  set (x ∷ xs) (suc i) v = x ∷ set xs i v

  abbrev pub replicate : ℕ → A → List A
  replicate zero a = []
  replicate (suc n) a = a ∷ replicate n a

  abbrev pub take : ℕ → List A → List A
  take zero xs = []
  take (suc n) [] = []
  take (suc n) (x ∷ xs) = x ∷ take n xs

  abbrev pub drop : ℕ → List A → List A
  drop zero xs = xs
  drop (suc n) [] = []
  drop (suc n) (x ∷ xs) = drop n xs

  -- A piece that is there in full is the same after more is appended.
  pub take-append :
      (n : ℕ) (xs ys : List A) → n ≤ length (take n xs) → take n (xs ++ ys) ≡ take n xs
  take-append zero xs ys h = refl
  take-append (suc n) [] ys h = absurd (omega arith)
  take-append (suc n) (x ∷ xs) ys h = ap (λ (t : List A). x ∷ t) (take-append n xs ys (omega arith))

  pub take-drop-append :
      (n k : ℕ) (xs ys : List A)
      → n ≤ length (take n (drop k xs))
      → take n (drop k (xs ++ ys)) ≡ take n (drop k xs)
  take-drop-append n zero xs ys h = take-append n xs ys h
  take-drop-append zero (suc k) xs ys h = refl
  take-drop-append (suc n) (suc k) [] ys h = absurd (omega arith)
  take-drop-append n (suc k) (x ∷ xs) ys h = take-drop-append n k xs ys h

  pub take-length_append : (xs ys : List A) → take (length xs) (xs ++ ys) ≡ xs
  take-length_append [] ys = refl
  take-length_append (x ∷ xs) ys = ap (λ (t : List A). x ∷ t) (take-length_append xs ys)

  pub drop-append : (n k : ℕ) (xs ys : List A) → n ≡ length xs + k → drop n (xs ++ ys) ≡ drop k ys
  drop-append n k [] ys e = ap (λ (i : ℕ). drop i ys) (omega (arith, e))
  drop-append zero k (x ∷ xs) ys e = absurd (omega (arith, e))
  drop-append (suc n) k (x ∷ xs) ys e = drop-append n k xs ys (omega (arith, e))

  drop-nil : (k : ℕ) → drop k [] ≡ []
  drop-nil zero = refl
  drop-nil (suc k) = refl

  -- The bytes `new` over those of a file from place `n` on; a gap before them reads as `gap`.
  abbrev pub write_over : A → ℕ → List A → List A → List A
  write_over gap zero [] old = old
  write_over gap zero (x ∷ new) [] = x ∷ write_over gap zero new []
  write_over gap zero (x ∷ new) (y ∷ old) = x ∷ write_over gap zero new old
  write_over gap (suc n) new [] = gap ∷ write_over gap n new []
  write_over gap (suc n) new (y ∷ old) = y ∷ write_over gap n new old

  pub take-drop-write_over_self :
      (gap : A) (n : ℕ) (new old : List A)
      → take (length new) (drop n (write_over gap n new old)) ≡ new
  take-drop-write_over_self gap zero [] old = refl
  take-drop-write_over_self gap zero (x ∷ new) [] =
      ap (λ (t : List A). x ∷ t) (take-drop-write_over_self gap zero new [])
  take-drop-write_over_self gap zero (x ∷ new) (y ∷ old) =
      ap (λ (t : List A). x ∷ t) (take-drop-write_over_self gap zero new old)
  take-drop-write_over_self gap (suc n) new [] = take-drop-write_over_self gap n new []
  take-drop-write_over_self gap (suc n) new (y ∷ old) = take-drop-write_over_self gap n new old

  -- A piece of the file that ends before the write.
  pub take-drop-write_over_before :
      (gap : A) (k size n : ℕ) (new old : List A)
      → k + size ≤ n
      → size ≤ length (take size (drop k old))
      → take size (drop k (write_over gap n new old)) ≡ take size (drop k old)
  take-drop-write_over_before gap k zero n new old le whole = refl
  take-drop-write_over_before gap zero (suc size) (suc n) new [] le whole = absurd (omega arith)
  take-drop-write_over_before gap zero (suc size) (suc n) new (y ∷ old) le whole =
      ap (λ (t : List A). y ∷ t)
        (take-drop-write_over_before gap zero size n new old (omega arith) (omega arith))
  take-drop-write_over_before gap zero (suc size) zero new old le whole = absurd (omega arith)
  take-drop-write_over_before gap (suc k) (suc size) zero new old le whole = absurd (omega arith)
  take-drop-write_over_before gap (suc k) (suc size) (suc n) new [] le whole = absurd (omega arith)
  take-drop-write_over_before gap (suc k) (suc size) (suc n) new (y ∷ old) le whole =
      take-drop-write_over_before gap k (suc size) n new old (omega arith) whole

  -- What stands behind the write.
  pub drop-write_over_after :
      (gap : A) (k n : ℕ) (new old : List A)
      → n + length new ≤ k
      → drop k (write_over gap n new old) ≡ drop k old
  drop-write_over_after gap k zero [] old le = refl
  drop-write_over_after gap zero zero (x ∷ new) old le = absurd (omega arith)
  drop-write_over_after gap (suc k) zero (x ∷ new) [] le =
      drop-write_over_after gap k zero new [] (omega arith) ∙ drop-nil k
  drop-write_over_after gap (suc k) zero (x ∷ new) (y ∷ old) le =
      drop-write_over_after gap k zero new old (omega arith)
  drop-write_over_after gap zero (suc n) new old le = absurd (omega arith)
  drop-write_over_after gap (suc k) (suc n) new [] le =
      drop-write_over_after gap k n new [] (omega arith) ∙ drop-nil k
  drop-write_over_after gap (suc k) (suc n) new (y ∷ old) le =
      drop-write_over_after gap k n new old (omega arith)

  pub take-append_parts :
      (xs ys zs : List A)
      → take (length (xs ++ ys)) zs ≡ xs ++ ys
      → (take (length xs) zs ≡ xs) × (take (length ys) (drop (length xs) zs) ≡ ys)
  take-append_parts [] ys zs h = (refl, h)
  take-append_parts (x ∷ xs) ys [] h = cc
  take-append_parts (x ∷ xs) ys (z ∷ zs) h =
      let rest : take (length (xs ++ ys)) zs ≡ xs ++ ys = cc in
      let (front, back) = take-append_parts xs ys zs rest in (cc, back)

  pub drop-drop : (n k : ℕ) (xs : List A) → drop (n + k) xs ≡ drop k (drop n xs)
  drop-drop zero k xs = let e : 0 + k ≡ k = omega arith in ap (λ (i : ℕ). drop i xs) e
  drop-drop (suc n) k [] = drop-nil (suc n + k) ∙ sym (drop-nil k)
  drop-drop (suc n) k (x ∷ xs) =
      let e : suc n + k ≡ suc (n + k) = omega arith in
      ap (λ (i : ℕ). drop i (x ∷ xs)) e ∙ drop-drop n k xs

  pub length-write_over :
      (gap : A) (n : ℕ) (new old : List A) → length old ≤ length (write_over gap n new old)
  length-write_over gap zero [] old = omega arith
  length-write_over gap zero (x ∷ new) [] = omega arith
  length-write_over gap zero (x ∷ new) (y ∷ old) = omega (arith, length-write_over gap zero new old)
  length-write_over gap (suc n) new [] = omega arith
  length-write_over gap (suc n) new (y ∷ old) = omega (arith, length-write_over gap n new old)

  pub write_over-append :
      (gap : A) (front new old : List A)
      → length new ≤ length old
      → write_over gap (length front) new (front ++ old) ≡ front ++ (new ++ drop (length new) old)
  write_over-append gap [] [] old le = refl
  write_over-append gap [] (x ∷ new) [] le = absurd (omega arith)
  write_over-append gap [] (x ∷ new) (y ∷ old) le =
      ap (λ (t : List A). x ∷ t) (write_over-append gap [] new old (omega arith))
  write_over-append gap (x ∷ front) new old le =
      ap (λ (t : List A). x ∷ t) (write_over-append gap front new old le)

  pub length-take_le : (n : ℕ) (xs : List A) → length (take n xs) ≤ n
  length-take_le zero xs = omega arith
  length-take_le (suc n) [] = omega arith
  length-take_le (suc n) (x ∷ xs) = omega (arith, length-take_le n xs)

  pub length-drop : (n : ℕ) (xs : List A) → n ≤ length xs → n + length (drop n xs) ≡ length xs
  length-drop zero xs le = omega arith
  length-drop (suc n) [] le = absurd (omega arith)
  length-drop (suc n) (x ∷ xs) le = omega (arith, length-drop n xs (omega arith))

  pub take-all : (xs : List A) → take (length xs) xs ≡ xs
  take-all [] = refl
  take-all (x ∷ xs) = ap (λ (t : List A). x ∷ t) (take-all xs)

  pub length-take : (n : ℕ) (xs : List A) → n ≤ length xs → length (take n xs) ≡ n
  length-take zero xs le = refl
  length-take (suc n) [] le = absurd (omega arith)
  length-take (suc n) (x ∷ xs) le = ap suc (length-take n xs (omega arith))

  take-nil : (k : ℕ) → take k [] ≡ []
  take-nil zero = refl
  take-nil (suc k) = refl

  pub take-add : (n k : ℕ) (xs : List A) → take (n + k) xs ≡ take n xs ++ take k (drop n xs)
  take-add zero k xs = let e : 0 + k ≡ k = omega arith in ap (λ (i : ℕ). take i xs) e
  take-add (suc n) k [] = take-nil (suc n + k) ∙ sym (take-nil k)
  take-add (suc n) k (x ∷ xs) =
      let e : suc n + k ≡ suc (n + k) = omega arith in
      ap (λ (i : ℕ). take i (x ∷ xs)) e ∙ ap (λ (t : List A). x ∷ t) (take-add n k xs)

  pub length-append : (xs ys : List A) → length (xs ++ ys) ≡ length xs + length ys
  length-append [] ys = omega arith
  length-append (x ∷ xs) ys = omega (arith, length-append xs ys)

  pub length-set : (xs : List A) (i : ℕ) (v : A) → length (set xs i v) ≡ length xs
  length-set [] i v = refl
  length-set (x ∷ xs) zero v = refl
  length-set (x ∷ xs) (suc i) v = ap suc (length-set xs i v)

  pub set-get_elem? : (xs : List A) (i : ℕ) (x : A) → get_elem? xs i ≡ some x → set xs i x ≡ xs
  set-get_elem? [] i x h = refl
  set-get_elem? (y ∷ xs) zero x h = let same : y ≡ x = cc in ap (λ (t : A). t ∷ xs) (sym same)
  set-get_elem? (y ∷ xs) (suc i) x h = ap (λ (t : List A). y ∷ t) (set-get_elem? xs i x h)

  pub length-replicate : (n : ℕ) (a : A) → length (replicate n a) ≡ n
  length-replicate zero a = refl
  length-replicate (suc n) a = ap suc (length-replicate n a)

  pub get_or-set_self :
      (xs : List A) (i : ℕ) (v d : A) → i < length xs → get_or (set xs i v) i d ≡ v
  get_or-set_self [] i v d h = elim h [ ]
  get_or-set_self (x ∷ xs) zero v d h = refl
  get_or-set_self (x ∷ xs) (suc i) v d h = get_or-set_self xs i v d (omega arith)

  pub get_or-set_ne :
      (xs : List A) (i j : ℕ) (v d : A) → i ≢ j → get_or (set xs i v) j d ≡ get_or xs j d
  get_or-set_ne [] i j v d h = refl
  get_or-set_ne (x ∷ xs) zero zero v d h = absurd (h refl)
  get_or-set_ne (x ∷ xs) zero (suc j) v d h = refl
  get_or-set_ne (x ∷ xs) (suc i) zero v d h = refl
  get_or-set_ne (x ∷ xs) (suc i) (suc j) v d h = get_or-set_ne xs i j v d (λ e. h (ap suc e))

  pub replicate-add : (n k : ℕ) (a : A) → replicate n a ++ replicate k a ≡ replicate (n + k) a
  replicate-add zero k a = let e : k ≡ 0 + k = omega arith in ap (λ (i : ℕ). replicate i a) e
  replicate-add (suc n) k a =
      let e : suc (n + k) ≡ suc n + k = omega arith in
      ap (λ (t : List A). a ∷ t) (replicate-add n k a) ∙ ap (λ (i : ℕ). replicate i a) e

  pub drop-replicate : (k n : ℕ) (a : A) → drop k (replicate (k + n) a) ≡ replicate n a
  drop-replicate zero n a = let e : 0 + n ≡ n = omega arith in ap (λ (i : ℕ). replicate i a) e
  drop-replicate (suc k) n a =
      let e : suc k + n ≡ suc (k + n) = omega arith in
      ap (λ (i : ℕ). drop (suc k) (replicate i a)) e ∙ drop-replicate k n a

  pub get_or-replicate : (n i : ℕ) (a : A) → get_or (replicate n a) i a ≡ a
  get_or-replicate zero i a = refl
  get_or-replicate (suc n) zero a = refl
  get_or-replicate (suc n) (suc i) a = get_or-replicate n i a

module _ {ℓ κ} {A : Type ℓ} (P : A → Type κ) where
  -- A predicate holds of every element.
  abbrev pub All : List A → Type κ
  All [] = Unit
  All (x ∷ xs) = P x × All xs

  pub All-append : (xs ys : List A) → All xs → All ys → All (xs ++ ys)
  All-append [] ys hx hy = hy
  All-append (x ∷ xs) ys hx hy = (hx.0, All-append xs ys hx.1 hy)

  pub All-set : (xs : List A) (i : ℕ) (v : A) → All xs → P v → All (set xs i v)
  All-set [] i v h p = tt
  All-set (x ∷ xs) zero v h p = (p, h.1)
  All-set (x ∷ xs) (suc i) v h p = (h.0, All-set xs i v h.1 p)

  pub All-get_or : (xs : List A) (i : ℕ) (d : A) → All xs → P d → P (get_or xs i d)
  All-get_or [] i d h p = p
  All-get_or (x ∷ xs) zero d h p = h.0
  All-get_or (x ∷ xs) (suc i) d h p = All-get_or xs i d h.1 p

  pub All-replicate : (n : ℕ) (a : A) → P a → All (replicate n a)
  All-replicate zero a p = tt
  All-replicate (suc n) a p = (p, All-replicate n a p)

pub All-map {ℓ κ} :
    {A : Type ℓ} (P Q : A → Type κ) (xs : List A) → ((x : A) → P x → Q x) → All P xs → All Q xs
All-map P Q [] f h = tt
All-map P Q (x ∷ xs) f h = (f x h.0, All-map P Q xs f h.1)

pub All-map₂ {ℓ κ} :
    {A : Type ℓ} (P Q R : A → Type κ) (xs : List A)
    → ((x : A) → P x → Q x → R x)
    → All P xs
    → All Q xs
    → All R xs
All-map₂ P Q R [] f h k = tt
All-map₂ P Q R (x ∷ xs) f h k = (f x h.0 k.0, All-map₂ P Q R xs f h.1 k.1)
