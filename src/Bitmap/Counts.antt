-- ===== src/Bitmap/Counts.antt =====
-- FreeBlocks: the accounting of free blocks under Allocate and Free.
use openfs.Common.{
  ℕ, zero, suc, ◌+◌, ◌-◌, ◌<◌, ◌≤◌, ◌≡◌, ◌≢◌, refl, Bool, List, true, false, ◌||◌, arith,
  if◌then◌else◌, ◌∙◌, min, subst, sym, ap, u64_mod, replicate, get_or, get_or-replicate,
  length-replicate, All-replicate, ◌/◌, ◌%◌, ◌^◌,
}
use native.Mathlib.Nat.{zero-div}
use openfs.Bitmap.{
  BlockBitmap, invalid_block_index, allocate, free, is_allocated, count_allocated, free_blocks,
  get_bit, load,
}
use openfs.Bitmap.Bits.{IsByte}
use openfs.Bitmap.Ranges.{
  IsValid, within, allocate_sound, free-allocate, num_blocks-allocate, num_blocks-free, run_is_free,
}

-- The number of blocks below `n` at which a predicate holds.
count_where : ℕ → (ℕ → Bool) → ℕ
count_where zero p = 0
count_where (suc n) p = if p n then count_where n p + 1 else count_where n p

count_where-cong :
    (n : ℕ) (p q : ℕ → Bool) → ((j : ℕ) → j < n → p j ≡ q j) → count_where n p ≡ count_where n q
unfolding count_where
count_where-cong zero p q h = refl
count_where-cong (suc n) p q h =
    let here = h n (omega arith) in
    let rest = count_where-cong n p q (λ j lt. h j (omega arith)) in ground (arith, here, rest)

-- Adding a range at which the predicate fails adds its length.
count_where-within :
    (n s c : ℕ) (p : ℕ → Bool)
    → ((j : ℕ) → within s c j ≡ true → p j ≡ false)
    → count_where n (λ j. within s c j || p j) ≡ count_where n p + (min n (s + c) - min n s)
unfolding count_where
count_where-within zero s c p h = omega arith
count_where-within (suc n) s c p h =
    let rest = count_where-within n s c p h in let here = h n in ground (arith, here, rest)

count_allocated-count_where :
    (b : BlockBitmap) (n : ℕ)
    → n ≤ b.num_blocks
    → count_allocated b.bitmap n ≡ count_where n (is_allocated b)
unfolding count_allocated count_where is_allocated
count_allocated-count_where b zero le = refl
count_allocated-count_where b (suc n) le =
    ground (arith, count_allocated-count_where b n (omega arith))

count_where-le : (n : ℕ) (p : ℕ → Bool) → count_where n p ≤ n
unfolding count_where
count_where-le zero p = omega arith
count_where-le (suc n) p = ground (arith, count_where-le n p)

free_blocks_lem :
    (b : BlockBitmap) → free_blocks b + count_where b.num_blocks (is_allocated b) ≡ b.num_blocks
unfolding free_blocks
free_blocks_lem b = omega (
  arith,
  count_allocated-count_where b b.num_blocks (omega arith),
  count_where-le b.num_blocks (is_allocated b),
)

free_blocks_at :
    (b : BlockBitmap) (n : ℕ)
    → b.num_blocks ≡ n
    → free_blocks b + count_where n (is_allocated b) ≡ n
free_blocks_at b n e =
    subst (λ k. free_blocks b + count_where k (is_allocated b) ≡ k) e (free_blocks_lem b)

module _ (b : BlockBitmap) (count : ℕ) (valid : IsValid b) where
  -- On a well-formed bitmap, a successful allocation takes exactly its number of blocks off the
  -- count of free blocks.
  pub free_blocks-allocate :
      (allocate b count).0 ≢ invalid_block_index
      → free_blocks (allocate b count).1 + count ≡ free_blocks b
  free_blocks-allocate ne =
      let (run, valid', after) = allocate_sound b count valid ne in
      let more =
        count_where-within b.num_blocks (allocate b count).0 count (is_allocated b)
          (λ j. run_is_free b count valid (allocate b count).0 j run) in
      let same =
        count_where-cong b.num_blocks (is_allocated (allocate b count).1) _ (λ j _. after j) in
      let new =
        free_blocks_at (allocate b count).1 b.num_blocks (num_blocks-allocate b count valid) in
      omega (arith, more, same, free_blocks_lem b, new, run.0)

  -- Allocating and freeing leaves the number of free blocks as it was.
  pub free_blocks-free-allocate :
      (allocate b count).0 ≢ invalid_block_index
      → free_blocks (free (allocate b count).1 (allocate b count).0 count) ≡ free_blocks b
  free_blocks-free-allocate ne =
      let b' = (allocate b count).1 in
      let b'' = free b' (allocate b count).0 count in
      let valid' = (allocate_sound b count valid ne).1 in
      let size : b''.num_blocks ≡ b.num_blocks =
        num_blocks-free b' count valid' _ ∙ num_blocks-allocate b count valid in
      let same =
        count_where-cong b.num_blocks (is_allocated b'') (is_allocated b)
          (λ j _. free-allocate b count valid ne j) in
      omega (arith, same, free_blocks_lem b, free_blocks_at b'' b.num_blocks size)

zeros-free : (n j : ℕ) → get_bit (replicate n 0) j ≡ false
unfolding get_bit
zeros-free n j =
    let zeros : List ℕ = replicate n 0 in
    let e : get_or zeros (j / 8) 0 ≡ 0 = get_or-replicate n (j / 8) 0 in
    rw (e, zero-div (2 ^ (j % 8))) refl

count_allocated-zeros : (n k : ℕ) → count_allocated (replicate n 0) k ≡ 0
unfolding count_allocated
count_allocated-zeros n zero = refl
count_allocated-zeros n (suc k) = ground (arith, zeros-free n k, count_allocated-zeros n k)

free_blocks-none :
    (b : BlockBitmap) → count_allocated b.bitmap b.num_blocks ≡ 0 → free_blocks b ≡ b.num_blocks
unfolding free_blocks
free_blocks-none b e = omega (arith, e)

-- A bitmap loaded from zeros that cover the blocks is valid, and every block of it is free.
pub load-zeros :
    (n num_blocks : ℕ)
    → num_blocks + 7 < u64_mod
    → (num_blocks + 7) / 8 ≤ n
    → (load (replicate n 0) num_blocks ≡ record { num_blocks = num_blocks; bitmap = replicate n 0 })
      × IsValid (load (replicate n 0) num_blocks)
      × (free_blocks (load (replicate n 0) num_blocks) ≡ num_blocks)
unfolding load
load-zeros n num_blocks fits covers =
    let sized = length-replicate {A = ℕ} n 0 in
    let bm : BlockBitmap = record { num_blocks = num_blocks; bitmap = replicate n 0 } in
    let e : load (replicate n 0) num_blocks ≡ bm = ground (arith, sized, fits, covers) in
    (
      e,
      subst IsValid (sym e) (record {
        fits = fits;
        covers = omega (arith, sized, covers);
        bytes = All-replicate IsByte n 0 (omega arith);
      }),
      ap free_blocks e ∙ free_blocks-none bm (count_allocated-zeros n num_blocks),
    )
