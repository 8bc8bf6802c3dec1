-- ===== src/Bitmap/Bits.antt =====
-- What reading, setting and clearing one bit do to the bits of the bitmap (SetBit, ClearBit, GetBit).
use openfs.Common.{
  ℕ, ◌-◌, ◌/◌, ◌%◌, ◌^◌, ◌<◌, ◌≡◌, ◌≢◌, inl, inr, List, Bool, true, false, ◌&&◌, bit_and, bit_or,
  arith, ltb, ◌==◌, ==_iff, if◌then◌else◌, Bool-cases, all_below, all_below_sound, length, get_or,
  All, All-set, All-get_or, length-set, get_or-set_self, get_or-set_ne,
}
use mathlib.Core.Path.{refl}
use openfs.Bitmap.{get_bit, set_bit, clear_bit}

abbrev pub IsByte : ℕ → Type 0
IsByte b = b < 256

bit_of : ℕ → ℕ → ℕ
bit_of b j = (b / 2 ^ j) % 2

or_ok : ℕ → ℕ → ℕ → Bool
unfolding bit_of
or_ok b k j =
    ltb (bit_or b (2 ^ k)) 256
    && (bit_of (bit_or b (2 ^ k)) j == (if k == j then 1 else bit_of b j))

and_ok : ℕ → ℕ → ℕ → Bool
unfolding bit_of
and_ok b k j =
    ltb (bit_and b (255 - 2 ^ k)) 256
    && (bit_of (bit_and b (255 - 2 ^ k)) j == (if k == j then 0 else bit_of b j))

or_table : all_below 256 (λ b. all_below 8 (λ k. all_below 8 (λ j. or_ok b k j))) ≡ true
unfolding all_below or_ok
or_table = refl

and_table : all_below 256 (λ b. all_below 8 (λ k. all_below 8 (λ j. and_ok b k j))) ≡ true
unfolding all_below and_ok
and_table = refl

unfold_or :
    (b k j : ℕ)
    → b < 256
    → k < 8
    → j < 8
    → (bit_or b (2 ^ k) < 256)
      × ((bit_or b (2 ^ k) / 2 ^ j) % 2 ≡ (if k == j then 1 else (b / 2 ^ j) % 2))
unfolding or_ok
unfold_or b k j hb hk hj =
    let t =
      all_below_sound 8 (λ j. or_ok b k j) j
        (all_below_sound 8 (λ k. all_below 8 (λ j. or_ok b k j)) k
          (all_below_sound 256 (λ b. all_below 8 (λ k. all_below 8 (λ j. or_ok b k j))) b or_table
            hb)
          hk)
        hj in
    ground (arith, t)

unfold_and :
    (b k j : ℕ)
    → b < 256
    → k < 8
    → j < 8
    → (bit_and b (255 - 2 ^ k) < 256)
      × ((bit_and b (255 - 2 ^ k) / 2 ^ j) % 2 ≡ (if k == j then 0 else (b / 2 ^ j) % 2))
unfolding and_ok
unfold_and b k j hb hk hj =
    let t =
      all_below_sound 8 (λ j. and_ok b k j) j
        (all_below_sound 8 (λ k. all_below 8 (λ j. and_ok b k j)) k
          (all_below_sound 256 (λ b. all_below 8 (λ k. all_below 8 (λ j. and_ok b k j))) b and_table
            hb)
          hk)
        hj in
    ground (arith, t)

module _ (bm : List ℕ) (i : ℕ) (bytes : All IsByte bm) where
  pub set_bit-IsByte : All IsByte (set_bit bm i)
  unfolding set_bit
  set_bit-IsByte =
      All-set IsByte bm (i / 8) _ bytes
        (unfold_or (get_or bm (i / 8) 0) (i % 8) 0
          (All-get_or IsByte bm (i / 8) 0 bytes (omega arith)) (omega arith) (omega arith)).0

  pub clear_bit-IsByte : All IsByte (clear_bit bm i)
  unfolding clear_bit
  clear_bit-IsByte =
      All-set IsByte bm (i / 8) _ bytes
        (unfold_and (get_or bm (i / 8) 0) (i % 8) 0
          (All-get_or IsByte bm (i / 8) 0 bytes (omega arith)) (omega arith) (omega arith)).0

  module _ (j : ℕ) (inside : i / 8 < length bm) where
    pub get_bit-set_bit : get_bit (set_bit bm i) j ≡ (if i == j then true else get_bit bm j)
    unfolding get_bit set_bit
    get_bit-set_bit = elim (Bool-cases (i / 8 == j / 8)) [
      | inl same ↦
          let e : i / 8 ≡ j / 8 = (==_iff _ _).0 same in
          rw (← e, get_or-set_self bm (i / 8) _ 0 inside)
            (ground (
              arith,
              unfold_or (get_or bm (i / 8) 0) (i % 8) (j % 8)
                  (All-get_or IsByte bm (i / 8) 0 bytes (omega arith)) (omega arith) (omega arith),
            ))
      | inr other ↦
          let e : i / 8 ≢ j / 8 = (λ p. ground arith) in
          rw (get_or-set_ne bm (i / 8) (j / 8) _ 0 e) (ground arith)
    ]

    pub get_bit-clear_bit : get_bit (clear_bit bm i) j ≡ (if i == j then false else get_bit bm j)
    unfolding get_bit clear_bit
    get_bit-clear_bit = elim (Bool-cases (i / 8 == j / 8)) [
      | inl same ↦
          let e : i / 8 ≡ j / 8 = (==_iff _ _).0 same in
          rw (← e, get_or-set_self bm (i / 8) _ 0 inside)
            (ground (
              arith,
              unfold_and (get_or bm (i / 8) 0) (i % 8) (j % 8)
                  (All-get_or IsByte bm (i / 8) 0 bytes (omega arith)) (omega arith) (omega arith),
            ))
      | inr other ↦
          let e : i / 8 ≢ j / 8 = (λ p. ground arith) in
          rw (get_or-set_ne bm (i / 8) (j / 8) _ 0 e) (ground arith)
    ]

pub length-set_bit : (bm : List ℕ) (i : ℕ) → length (set_bit bm i) ≡ length bm
unfolding set_bit
length-set_bit bm i = length-set bm (i / 8) _

pub length-clear_bit : (bm : List ℕ) (i : ℕ) → length (clear_bit bm i) ≡ length bm
unfolding clear_bit
length-clear_bit bm i = length-set bm (i / 8) _
