-- ===== src/Bitmap/Search.antt =====
-- FindConsecutiveFree returns the first run of free blocks that is long enough.
use openfs.Common.{
  ℕ, zero, suc, ◌+◌, ◌<◌, ◌≤◌, ◌≡◌, ◌≢◌, ◌⊎◌, inl, inr, refl, true, false, arith, ltb, leb, ◌==◌,
  if◌then◌else◌, Bool-cases, ==_iff, leb→lt, leb→le, ltb→lt, ltb→le, subst,
}
use openfs.Bitmap.{BlockBitmap, get_bit, invalid_block_index, scan, find_consecutive_free}

-- `count` blocks from `start` on lie in the bitmap and are free.
abbrev pub FreeRun : BlockBitmap → ℕ → ℕ → Type 0
FreeRun b start count =
    (start + count ≤ b.num_blocks)
    × ((j : ℕ) → start ≤ j → j < start + count → get_bit b.bitmap j ≡ false)

module _ (b : BlockBitmap) (count : ℕ) (positive : 0 < count) where
  -- The run that the loop has seen last: `consecutive` free blocks that end before `i`.
  abbrev Run : ℕ → ℕ → ℕ → Type 0
  Run i consecutive start =
      (consecutive < count)
      × ((consecutive ≡ 0) ⊎ (start + consecutive ≡ i))
      × ((j : ℕ) → i ≤ j + consecutive → j < i → get_bit b.bitmap j ≡ false)

  abbrev start_of : ℕ → ℕ → ℕ → ℕ
  start_of i c s = if c == 0 then i else s

  Run-found :
      (i c s : ℕ)
      → Run i c s
      → get_bit b.bitmap i ≡ false
      → (j : ℕ) → start_of i c s ≤ j
      → j < start_of i c s + (c + 1)
      → get_bit b.bitmap j ≡ false
  Run-found i c s r h j p q = elim (Bool-cases (j == i)) [
    | inl here ↦ rw ((==_iff j i).0 here) h
    | inr before ↦ r.2 j (ground (arith, r)) (ground (arith, r))
  ]

  module _ (n i c s : ℕ) where
    scan_stop :
        get_bit b.bitmap i ≡ false
        → leb count (c + 1) ≡ true
        → start_of i c s ≡ scan b.bitmap count (suc n) i c s
    unfolding scan
    scan_stop h k = ground arith

    scan_go :
        get_bit b.bitmap i ≡ false
        → leb count (c + 1) ≡ false
        → scan b.bitmap count n (i + 1) (c + 1) (start_of i c s) ≡ scan b.bitmap count (suc n) i c s
    unfolding scan
    scan_go h k = ground arith

    scan_restart :
        get_bit b.bitmap i ≡ true
        → scan b.bitmap count n (i + 1) 0 invalid_block_index ≡ scan b.bitmap count (suc n) i c s
    unfolding scan
    scan_restart h = ground arith

    Run-go :
        Run i c s
        → get_bit b.bitmap i ≡ false
        → leb count (c + 1) ≡ false
        → Run (i + 1) (c + 1) (start_of i c s)
    Run-go r h k = (
      leb→lt count (c + 1) k,
      inr (ground (arith, r)),
      λ j p q. Run-found i c s r h j (ground (arith, r)) (ground (arith, r)),
    )

    Run-restart : Run (i + 1) 0 invalid_block_index
    Run-restart = (positive, inl refl, λ j p q. absurd (omega arith))

  scan_sound :
      (rounds i c s : ℕ)
      → i + rounds ≡ b.num_blocks
      → c ≤ i
      → Run i c s
      → scan b.bitmap count rounds i c s ≢ invalid_block_index
      → FreeRun b (scan b.bitmap count rounds i c s) count
  scan_sound zero i c s e le r = unfold scan in λ ne. absurd (ne refl)
  scan_sound (suc n) i c s e le r = elim (Bool-cases (get_bit b.bitmap i)) [
    | inl taken ↦ subst Goal (scan_restart n i c s taken) (
        scan_sound n (i + 1) 0 invalid_block_index (omega arith) (omega arith)
          (Run-restart n i c s))
    | inr free ↦ elim (Bool-cases (leb count (c + 1))) [
      | inl enough ↦ subst Goal (scan_stop n i c s free enough) (λ _. (
        ground (arith, r),
        λ j p q. Run-found i c s r free j p (ground (arith, leb→le count (c + 1) enough, r.0)),
      ))
      | inr more ↦ subst Goal (scan_go n i c s free more) (
          scan_sound n (i + 1) (c + 1) (start_of i c s) (omega arith) (omega arith)
            (Run-go n i c s r free more))
    ]
  ]
    where
      Goal : ℕ → Type 0
      Goal x = x ≢ invalid_block_index → FreeRun b x count

  scan_first :
      (rounds i c s t : ℕ)
      → i + rounds ≡ b.num_blocks
      → c ≤ i
      → Run i c s
      → i ≤ t + c
      → FreeRun b t count
      → scan b.bitmap count rounds i c s ≤ t
  scan_first zero i c s t e le r from run = absurd (omega arith)
  scan_first (suc n) i c s t e le r from run = elim (Bool-cases (get_bit b.bitmap i)) [
    | inl taken ↦ rw (← scan_restart n i c s taken) (
        scan_first n (i + 1) 0 invalid_block_index t (omega arith) (omega arith)
          (Run-restart n i c s)
          (elim (Bool-cases (ltb i t)) [
            | inl later ↦ omega (arith, ltb→lt i t later)
            | inr covered ↦ cc (run.1 i (ltb→le i t covered) (omega (arith, r.0)), taken)
          ])
          run)
    | inr free ↦ elim (Bool-cases (leb count (c + 1))) [
      | inl enough ↦ rw (← scan_stop n i c s free enough) (ground (arith, r))
      | inr more ↦ rw (← scan_go n i c s free more) (
          scan_first n (i + 1) (c + 1) (start_of i c s) t (omega arith) (omega arith)
            (Run-go n i c s r free more) (omega arith) run)
    ]
  ]

  -- What is found is a run of free blocks.
  pub find_consecutive_free_sound :
      find_consecutive_free b count ≢ invalid_block_index
      → FreeRun b (find_consecutive_free b count) count
  unfolding find_consecutive_free
  find_consecutive_free_sound =
      scan_sound b.num_blocks 0 0 invalid_block_index (omega arith) (omega arith)
        (positive, inl refl, λ j p q. absurd (omega arith))

  -- No run starts before the one that is found.
  pub find_consecutive_free_first : (t : ℕ) → FreeRun b t count → find_consecutive_free b count ≤ t
  unfolding find_consecutive_free
  find_consecutive_free_first t run =
      scan_first b.num_blocks 0 0 invalid_block_index t (omega arith) (omega arith)
        (positive, inl refl, λ j p q. absurd (omega arith)) (omega arith) run
