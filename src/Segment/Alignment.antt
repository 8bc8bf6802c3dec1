-- ===== src/Segment/Alignment.antt =====
-- The mask that aligns an offset is division and multiplication by the alignment.
use openfs.Common.{
  ℕ, zero, suc, ◌+◌, ◌-◌, ◌*◌, ◌/◌, ◌%◌, ◌^◌, ◌≤◌, ◌<◌, ◌≡◌, bit_and, arith, u64_mod, ap, ◌∙◌,
}
use openfs.Common.Bits.{bit_and_ones, bit_and_lowest}
use native.Mathlib.Nat.{pow-suc, div-div-eq-div-mul}
use openfs.Segment.{align}

-- A mask of `n` ones above `k` zeros keeps the digits from `k` to `k + n`.
bit_and_high : (n k a : ℕ) → bit_and a ((2 ^ n - 1) * 2 ^ k) ≡ a / 2 ^ k % 2 ^ n * 2 ^ k
bit_and_high n zero a =
    let mask : (2 ^ n - 1) * 2 ^ 0 ≡ 2 ^ n - 1 = omega arith in
    let one : a / 2 ^ 0 ≡ a = omega arith in rw (mask, one) (omega (arith, bit_and_ones n a))
bit_and_high n (suc k) a =
    let m = 2 ^ n - 1 in
    let mask = m * 2 ^ suc k in
    let twice : mask ≡ m * 2 ^ k * 2 = omega (arith, ap (λ (t : ℕ). m * t) (pow-suc 2 k)) in
    let half : mask / 2 ≡ m * 2 ^ k = omega (arith, twice) in
    let even : mask % 2 ≡ 0 = omega (arith, twice) in
    let rest = bit_and_high n k (a / 2) in
    let q = a / 2 / 2 ^ k % 2 ^ n in
    let shift : a / 2 / 2 ^ k ≡ a / 2 ^ suc k =
      div-div-eq-div-mul a 2 (2 ^ k) ∙ ap (λ (t : ℕ). a / t) (omega (arith, pow-suc 2 k)) in
    let spread : q * 2 ^ suc k ≡ q * 2 ^ k * 2 =
      omega (arith, ap (λ (t : ℕ). q * t) (pow-suc 2 k)) in
    rw (← shift) (bit_and_lowest a mask ∙ rw (half, even, rest) (omega (arith, spread)))

-- The offset is rounded up to a multiple of 4096, by less than 4096.
pub align_lem :
    (offset : ℕ)
    → offset + 4096 < u64_mod
    → (align offset % 4096 ≡ 0) × (offset ≤ align offset) × (align offset < offset + 4096)
unfolding align
align_lem offset small =
    let up = offset + 4096 - 1 in
    let high : bit_and up (u64_mod - 4096) ≡ up / 2 ^ 12 % 2 ^ 52 * 2 ^ 12 =
      bit_and_high 52 12 up in
    let no_wrap : up % u64_mod ≡ up = omega arith in
    rw (no_wrap, high) (omega arith, omega arith, omega arith)
