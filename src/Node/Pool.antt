-- ===== src/Node/Pool.antt =====
-- Which disk of a pool a block goes to.
use openfs.Common.{
  ℕ, suc, ◌+◌, ◌<◌, ◌≤◌, ◌≡◌, ◌⊎◌, inl, inr, List, [], ◌∷◌, Option, none, some, true, ltb, ◌&&◌,
  get_elem?, arith, refl, ap, ◌∙◌, Bool-cases, All,
}
use openfs.Bitmap.{free_blocks}
use openfs.Disk.{DiskManager, is_normal}
use openfs.Node.{select_from, select_disk}

-- A running disk has at most this many free blocks.
abbrev pub AtMost : ℕ → DiskManager → Type 0
AtMost bound d = is_normal d.state ≡ true → free_blocks d.bitmap ≤ bound

-- What the loop gives: either what it had, when no disk has more, or a disk that has the most.
abbrev pub Chosen : List DiskManager → ℕ → ℕ → Option ℕ → Type 0
Chosen disks i best_free r =
    (k : ℕ) × (d : DiskManager) × (r ≡ some (i + k))
    × (get_elem? disks k ≡ some d)
    × (is_normal d.state ≡ true)
    × (best_free < free_blocks d.bitmap)
    × All (AtMost (free_blocks d.bitmap)) disks

shift : (i k : ℕ) (r : Option ℕ) → r ≡ some (i + 1 + k) → r ≡ some (i + suc k)
shift i k r e = let same : i + 1 + k ≡ i + suc k = omega arith in e ∙ ap (λ (n : ℕ). some n) same

select_from-Chosen :
    (disks : List DiskManager) (i : ℕ) (best : Option ℕ) (best_free : ℕ)
    → ((select_from disks i best best_free ≡ best) × All (AtMost best_free) disks)
      ⊎ Chosen disks i best_free (select_from disks i best best_free)
unfolding select_from
select_from-Chosen [] i best best_free = inl (refl, tt)
select_from-Chosen (d ∷ disks) i best best_free =
    let n = free_blocks d.bitmap in
    elim (Bool-cases (ltb best_free n && is_normal d.state)) [
      | inl better ↦ rw better (elim (select_from-Chosen disks (i + 1) (some i) n) [
        | inl (e, rest) ↦
            let here : i ≡ i + 0 = omega arith in
            inr (
              0,
              d,
              e ∙ ap (λ (k : ℕ). some k) here,
              refl,
              ground (arith, better),
              ground (arith, better),
              (λ _. omega arith, rest),
            )
        | inr (k, d', e, there, running, more, rest) ↦ inr (
          suc k,
          d',
          shift i k (select_from disks (i + 1) (some i) n) e,
          there,
          running,
          ground (arith, better, more),
          (λ _. omega (arith, more), rest),
        )
      ])
      | inr worse ↦ rw worse (elim (select_from-Chosen disks (i + 1) best best_free) [
        | inl (e, rest) ↦ inl (e, (λ on. ground (arith, worse, on), rest))
        | inr (k, d', e, there, running, more, rest) ↦ inr (
          suc k,
          d',
          shift i k (select_from disks (i + 1) best best_free) e,
          there,
          running,
          more,
          (λ on. ground (arith, worse, on, more), rest),
        )
      ])
    ]

-- SelectDisk gives a running disk with the most free blocks among the running ones, and none
-- exactly when no running disk has a free block.
pub select_disk-AtMost :
    (disks : List DiskManager)
    → ((select_disk disks ≡ none) × All (AtMost 0) disks)
      ⊎ ((i : ℕ) × (d : DiskManager) × (select_disk disks ≡ some i)
          × (get_elem? disks i ≡ some d)
          × (is_normal d.state ≡ true)
          × (0 < free_blocks d.bitmap)
          × All (AtMost (free_blocks d.bitmap)) disks)
unfolding select_disk
select_disk-AtMost disks = elim (select_from-Chosen disks 0 none 0) [
  | inl h ↦ inl h
  | inr (k, d, e, there, running, more, rest) ↦
      let same : 0 + k ≡ k = omega arith in
      inr (k, d, e ∙ ap (λ (n : ℕ). some n) same, there, running, more, rest)
]
