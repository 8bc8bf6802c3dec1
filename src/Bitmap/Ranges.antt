-- ===== src/Bitmap/Ranges.antt =====
-- Allocate and Free: which bits they change, and that they keep the bitmap well formed.
use openfs.Common.{
  ℕ, zero, suc, ◌+◌, ◌/◌, ◌%◌, ◌<◌, ◌≤◌, ◌≡◌, ◌≢◌, refl, ◌∙◌, List, Bool, true, false, ◌&&◌, ◌||◌,
  not, ◌↔◌, arith, ltb→lt, ltb, leb, ◌==◌, ==_iff, if◌then◌else◌, Bool-cases, inl, inr, u64_mod,
  length, All,
}
use openfs.Bitmap.{
  BlockBitmap, get_bit, set_bit, clear_bit, invalid_block_index, find_consecutive_free, set_range,
  allocate, clear_range, free, is_allocated,
}
use openfs.Bitmap.Bits.{
  IsByte, set_bit-IsByte, clear_bit-IsByte, get_bit-set_bit, get_bit-clear_bit, length-set_bit,
  length-clear_bit,
}
use openfs.Bitmap.Search.{FreeRun, find_consecutive_free_sound, find_consecutive_free_first}

-- The vector has a bit for every block, its elements are bytes, and the number of blocks is far
-- enough below 2^64 for the arithmetic on it not to wrap.
pub record IsValid (b : BlockBitmap) : Type 0 where
  pub fits : b.num_blocks + 7 < u64_mod
  pub covers : (b.num_blocks + 7) / 8 ≤ length b.bitmap
  pub bytes : All IsByte b.bitmap

-- start ≤ j < start + count
abbrev pub within : ℕ → ℕ → ℕ → Bool
within start count j = leb start j && ltb j (start + count)

-- What a bitmap must keep to serve `num_blocks` blocks.
abbrev Holds : ℕ → List ℕ → Type 0
Holds num_blocks bm = ((num_blocks + 7) / 8 ≤ length bm) × All IsByte bm

module _ (num start : ℕ) (fits : num + 7 < u64_mod) where
  set_range-Holds :
      (n i : ℕ) (bm : List ℕ)
      → start + i + n ≤ num
      → Holds num bm
      → Holds num (set_range bm start i n)
  unfolding set_range
  set_range-Holds zero i bm le h = h
  set_range-Holds (suc n) i bm le h =
      set_range-Holds n (i + 1) (set_bit bm ((start + i) % u64_mod)) (omega arith)
        (omega (arith, length-set_bit bm ((start + i) % u64_mod), h.0), set_bit-IsByte bm _ h.1)

  get_bit-set_range :
      (n i : ℕ) (bm : List ℕ) (j : ℕ)
      → start + i + n ≤ num
      → Holds num bm
      → get_bit (set_range bm start i n) j ≡ (if within (start + i) n j then true else get_bit bm j)
  unfolding set_range
  get_bit-set_range zero i bm j le h = ground arith
  get_bit-set_range (suc n) i bm j le h =
      let k = (start + i) % u64_mod in
      let ih =
        get_bit-set_range n (i + 1) (set_bit bm k) j (omega arith)
          (omega (arith, length-set_bit bm k, h.0), set_bit-IsByte bm k h.1) in
      let here = get_bit-set_bit bm k h.1 j (omega (arith, h.0)) in
      let same : k ≡ start + i = omega arith in ground (arith, ih, here, same)

  clear_range-Holds :
      (n i : ℕ) (bm : List ℕ) → Holds num bm → Holds num (clear_range num bm start i n)
  unfolding clear_range
  clear_range-Holds zero i bm h = h
  clear_range-Holds (suc n) i bm h = elim (Bool-cases (ltb ((start + i) % u64_mod) num)) [
    | inl yes_in ↦ rw yes_in (
        clear_range-Holds n (i + 1) (clear_bit bm ((start + i) % u64_mod)) (
          omega (arith, length-clear_bit bm ((start + i) % u64_mod), h.0),
          clear_bit-IsByte bm _ h.1,
        ))
    | inr out ↦ rw out (clear_range-Holds n (i + 1) bm h)
  ]

  get_bit-clear_range :
      (n i : ℕ) (bm : List ℕ) (j : ℕ)
      → start + i + n ≤ u64_mod
      → Holds num bm
      → j < num
      → get_bit (clear_range num bm start i n) j
        ≡ (if within (start + i) n j then false else get_bit bm j)
  unfolding clear_range
  get_bit-clear_range zero i bm j le h lt = ground arith
  get_bit-clear_range (suc n) i bm j le h lt =
      let k = (start + i) % u64_mod in
      let same : k ≡ start + i = omega arith in
      elim (Bool-cases (ltb ((start + i) % u64_mod) num)) [
        | inl yes_in ↦ rw yes_in (
            let ih =
              get_bit-clear_range n (i + 1) (clear_bit bm k) j (omega arith)
                (omega (arith, length-clear_bit bm k, h.0), clear_bit-IsByte bm k h.1) lt in
            let here = get_bit-clear_bit bm k h.1 j (ground (arith, h.0)) in
            ground (arith, ih, here, same))
        | inr out ↦ rw out (
            let ih = get_bit-clear_range n (i + 1) bm j (omega arith) h lt in
            ground (arith, ih, same))
      ]

module _ (b : BlockBitmap) (count : ℕ) (valid : IsValid b) where
  -- An allocation that succeeds on a well-formed bitmap returns a run of blocks that were free,
  -- marks exactly these as allocated, and keeps the bitmap well formed.
  pub allocate_sound :
      (allocate b count).0 ≢ invalid_block_index
      → FreeRun b (allocate b count).0 count
        × IsValid (allocate b count).1
        × ((j : ℕ)
            → is_allocated (allocate b count).1 j
              ≡ (within (allocate b count).0 count j || is_allocated b j))
  unfolding allocate is_allocated
  allocate_sound ne = elim (Bool-cases (count == 0)) [
    | inl zero_count ↦ absurd (ne (rw zero_count))
    | inr positive ↦ elim (Bool-cases (find_consecutive_free b count == invalid_block_index)) [
      | inl failed ↦ absurd (ne (rw (positive, failed)))
      | inr found ↦
          let run = find_consecutive_free_sound b count (ground arith) (λ e. ground (arith, e)) in
          let le : find_consecutive_free b count + 0 + count ≤ b.num_blocks =
            omega (arith, run.0) in
          let holds =
            set_range-Holds b.num_blocks (find_consecutive_free b count) valid.fits count 0 b.bitmap
              le (valid.covers, valid.bytes) in
          rw (positive, found)
            (
              run,
              record { fits = valid.fits; covers = holds.0; bytes = holds.1 },
              λ j. ground (
                arith,
                run.0,
                get_bit-set_range b.num_blocks (find_consecutive_free b count) valid.fits count 0
                    b.bitmap j le (valid.covers, valid.bytes),
              ),
            )
    ]
  ]

  -- On a well-formed bitmap, allocation of at least one block is first fit: no free run that is
  -- long enough starts before the one returned.
  pub allocate_first : 0 < count → (t : ℕ) → FreeRun b t count → (allocate b count).0 ≤ t
  unfolding allocate
  allocate_first positive t run = ground (arith, find_consecutive_free_first b count positive t run)

  -- On a well-formed bitmap, an allocation of at least one block fails exactly when no run of
  -- that many free blocks is left.
  pub allocate_fails_iff :
      0 < count → ((allocate b count).0 ≡ invalid_block_index) ↔ ((t : ℕ) → ¬ FreeRun b t count)
  allocate_fails_iff positive = (
    λ e t run. absurd (omega (arith, allocate_first positive t run, valid.fits, run.0)),
    λ none_left. elim (Bool-cases ((allocate b count).0 == invalid_block_index)) [
      | inl e ↦ (==_iff _ _).0 e
      | inr ne ↦ absurd (none_left _ (allocate_sound (λ e. ground (arith, e))).0)
    ],
  )

  pub allocate_failure : (allocate b count).0 ≡ invalid_block_index → (allocate b count).1 ≡ b
  unfolding allocate
  allocate_failure e = ground arith

  pub free-IsValid : (start : ℕ) → IsValid (free b start count)
  unfolding free
  free-IsValid start =
      let h =
        clear_range-Holds b.num_blocks start valid.fits count 0 b.bitmap
          (valid.covers, valid.bytes) in
      record { fits = valid.fits; covers = h.0; bytes = h.1 }

  -- On a well-formed bitmap, Free clears exactly the blocks of its range, as long as the range
  -- does not wrap.
  pub is_allocated-free :
      (start j : ℕ)
      → start + count ≤ u64_mod
      → is_allocated (free b start count) j ≡ (not (within start count j) && is_allocated b j)
  unfolding free is_allocated
  is_allocated-free start j le = elim (Bool-cases (ltb j b.num_blocks)) [
    | inl inside ↦ ground (
      arith,
      get_bit-clear_range b.num_blocks start valid.fits count 0 b.bitmap j (omega arith)
          (valid.covers, valid.bytes) (ltb→lt _ _ inside),
    )
    | inr outside ↦ ground arith
  ]

length-set_range : (n start i : ℕ) (bm : List ℕ) → length (set_range bm start i n) ≡ length bm
unfolding set_range
length-set_range zero start i bm = refl
length-set_range (suc n) start i bm =
    length-set_range n start (i + 1) (set_bit bm ((start + i) % u64_mod))
    ∙ length-set_bit bm ((start + i) % u64_mod)

length-clear_range :
    (num n start i : ℕ) (bm : List ℕ) → length (clear_range num bm start i n) ≡ length bm
unfolding clear_range
length-clear_range num zero start i bm = refl
length-clear_range num (suc n) start i bm =
    let k = (start + i) % u64_mod in
    elim (Bool-cases (ltb ((start + i) % u64_mod) num)) [
      | inl inside ↦
          rw inside
            (length-clear_range num n start (i + 1) (clear_bit bm k) ∙ length-clear_bit bm k)
      | inr outside ↦ rw outside (length-clear_range num n start (i + 1) bm)
    ]

pub length-allocate :
    (b : BlockBitmap) (count : ℕ) → length (allocate b count).1.bitmap ≡ length b.bitmap
unfolding allocate
length-allocate b count =
    ground (arith, length-set_range count (find_consecutive_free b count) 0 b.bitmap)

pub length-free :
    (b : BlockBitmap) (start count : ℕ) → length (free b start count).bitmap ≡ length b.bitmap
unfolding free
length-free b start count = length-clear_range b.num_blocks count start 0 b.bitmap

module _ (b : BlockBitmap) (count : ℕ) (valid : IsValid b) where
  pub num_blocks-allocate : (allocate b count).1.num_blocks ≡ b.num_blocks
  unfolding allocate
  num_blocks-allocate = ground arith

  pub num_blocks-free : (start : ℕ) → (free b start count).num_blocks ≡ b.num_blocks
  unfolding free
  num_blocks-free start = refl

  pub run_is_free :
      (s j : ℕ) → FreeRun b s count → within s count j ≡ true → is_allocated b j ≡ false
  unfolding is_allocated
  run_is_free s j run h = ground (arith, run.1 j)

  -- On a well-formed bitmap, freeing the run that was just allocated gives back the state of
  -- every block.
  pub free-allocate :
      (allocate b count).0 ≢ invalid_block_index
      → (j : ℕ)
      → is_allocated (free (allocate b count).1 (allocate b count).0 count) j ≡ is_allocated b j
  free-allocate ne j =
      let (run, valid', after) = allocate_sound b count valid ne in
      let cleared =
        is_allocated-free (allocate b count).1 count valid' (allocate b count).0 j
          (omega (arith, run.0, valid.fits)) in
      let before = after j in
      ground (arith, cleared, before, run_is_free (allocate b count).0 j run)
