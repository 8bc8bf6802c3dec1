-- ===== src/Bitmap/Tests.antt =====
-- Runs of the bitmap operations, and instances of the theorems about them.
use openfs.Common.{
  ℕ, ◌+◌, ◌≤◌, ◌≡◌, ◌≢◌, ◌↔◌, refl, [], ◌∷◌, true, ◌&&◌, ◌||◌, not, arith, ltb, all_below,
  all_below_sound,
}
use openfs.Bitmap.{
  BlockBitmap, invalid_block_index, init, get_bit, set_bit, allocate, free, is_allocated,
  free_blocks, load, validate,
}
use openfs.Bitmap.Search.{FreeRun}
use openfs.Bitmap.Ranges
use openfs.Bitmap.Ranges.{IsValid, within}
use openfs.Bitmap.Counts

-- Ten blocks, of which 0, 1 and 4 are allocated.
abbrev sample : BlockBitmap
sample = record { num_blocks = 10; bitmap = 0b10011 ∷ 0 ∷ [] }

sample-IsValid : IsValid sample
sample-IsValid = record { fits = omega arith; covers = omega arith; bytes = omega arith }

-- The first run of three free blocks starts at 5; two are found at 2.
allocate_runs :
    ((allocate sample 3).0 ≡ 5)
    × ((allocate sample 2).0 ≡ 2)
    × ((allocate sample 6).0 ≡ invalid_block_index)
    × ((allocate sample 3).1.bitmap ≡ 0b11110011 ∷ 0 ∷ [])
unfolding allocate set_bit get_bit
allocate_runs = (refl, refl, refl, refl)

init_runs : (free_blocks (init 10) ≡ 10) × (validate (init 10) ≡ true) × (free_blocks sample ≡ 7)
unfolding init free_blocks validate get_bit
init_runs = (refl, refl, refl)

load_runs : load (0b11 ∷ []) 10 ≡ record { num_blocks = 10; bitmap = 0b11 ∷ 0 ∷ [] }
unfolding load
load_runs = refl

found : (allocate sample 3).0 ≢ invalid_block_index
unfolding allocate set_bit get_bit
found = λ e. omega arith

allocate_sound_example :
    FreeRun sample (allocate sample 3).0 3
    × IsValid (allocate sample 3).1
    × ((j : ℕ)
        → is_allocated (allocate sample 3).1 j
          ≡ (within (allocate sample 3).0 3 j || is_allocated sample j))
allocate_sound_example = Ranges.allocate_sound sample 3 sample-IsValid found

free_from_six : all_below 9 (λ j. ltb j 6 || not (get_bit sample.bitmap j)) ≡ true
unfolding all_below get_bit
free_from_six = refl

run_at_six : FreeRun sample 6 3
run_at_six = (omega arith, λ j p q. ground (arith, all_below_sound 9 _ j free_from_six))

allocate_first_example : (allocate sample 3).0 ≤ 6
allocate_first_example = Ranges.allocate_first sample 3 sample-IsValid (omega arith) 6 run_at_six

allocate_fails_iff_example :
    ((allocate sample 6).0 ≡ invalid_block_index) ↔ ((t : ℕ) → ¬ FreeRun sample t 6)
allocate_fails_iff_example = Ranges.allocate_fails_iff sample 6 sample-IsValid (omega arith)

is_allocated-free_example :
    is_allocated (free sample 0 2) 4 ≡ (not (within 0 2 4) && is_allocated sample 4)
is_allocated-free_example = Ranges.is_allocated-free sample 2 sample-IsValid 0 4 (omega arith)

free-allocate_example :
    is_allocated (free (allocate sample 3).1 (allocate sample 3).0 3) 6 ≡ is_allocated sample 6
free-allocate_example = Ranges.free-allocate sample 3 sample-IsValid found 6

free_blocks-allocate_example : free_blocks (allocate sample 3).1 + 3 ≡ free_blocks sample
free_blocks-allocate_example = Counts.free_blocks-allocate sample 3 sample-IsValid found
