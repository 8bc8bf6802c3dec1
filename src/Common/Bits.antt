-- ===== src/Common/Bits.antt =====
-- Laws of the bitwise operations at variables: the lowest digit of a result, `|` of fields that do
-- not overlap, `&` with a mask of low bits, and that `^` cancels.
use Prim.Native.Nat.{
  ℕ, zero, suc, ◌+◌, ◌-◌, ◌*◌, ◌/◌, ◌%◌, ◌^◌, ◌≤◌, ◌<◌, min, max, bit_and, bit_or, bit_xor, digits,
  bitwise, bit_and-bitwise, bit_or-bitwise, bit_xor-bitwise, differ,
}
use mathlib.Core.Path.{◌≡◌, refl, ap, ◌∙◌}
use native.Mathlib.Nat.{
  pow-suc, one-le-pow, add-mul-mod_self_right, mod-eq_of_lt, mod-lt, div-add-mod,
}
use native.Mathlib.Decide.{dec_le}
use native.Mathlib.Omega.{arith}

module _ (z : ℕ → ℕ) (f : ℕ → ℕ → ℕ) where
  -- One more unit of fuel changes nothing, if there was one for each step already.
  one_more : (n a b : ℕ) → a ≤ n → digits z f (suc n) a b ≡ digits z f n a b
  one_more zero zero b h = refl
  one_more zero (suc a) b h = absurd (omega arith)
  one_more (suc n) zero b h = refl
  one_more (suc n) (suc a) b h =
      ap (λ (t : ℕ). t * 2 + f (suc a % 2) (b % 2)) (one_more n (suc a / 2) (b / 2) (omega arith))

  enough : (n a b : ℕ) → a ≤ n → digits z f n a b ≡ digits z f a a b
  enough zero zero b h = refl
  enough zero (suc a) b h = absurd (omega arith)
  enough (suc n) a b h = elim (dec_le a n) [
    | yes fewer ↦ one_more n a b fewer ∙ enough n a b fewer
    | no same ↦ let e : a ≡ suc n = omega arith in rw e
  ]

  lowest :
      (half y : ℕ)
      → bitwise z f (suc half) y ≡ bitwise z f (suc half / 2) (y / 2) * 2 + f (suc half % 2) (y % 2)
  lowest half y =
      ap (λ (t : ℕ). t * 2 + f (suc half % 2) (y % 2))
        (enough half (suc half / 2) (y / 2) (omega arith))

bit_or_lowest : (a b : ℕ) → bit_or a b ≡ bit_or (a / 2) (b / 2) * 2 + max (a % 2) (b % 2)
bit_or_lowest zero b = rw (bit_or-bitwise 0 b, bit_or-bitwise (0 / 2) (b / 2)) (omega arith)
bit_or_lowest (suc a) b =
    rw (bit_or-bitwise (suc a) b, bit_or-bitwise (suc a / 2) (b / 2)) (lowest (λ y. y) max a b)

pub bit_and_lowest : (a b : ℕ) → bit_and a b ≡ bit_and (a / 2) (b / 2) * 2 + min (a % 2) (b % 2)
bit_and_lowest zero b = rw (bit_and-bitwise 0 b, bit_and-bitwise (0 / 2) (b / 2)) (omega arith)
bit_and_lowest (suc a) b =
    rw (bit_and-bitwise (suc a) b, bit_and-bitwise (suc a / 2) (b / 2)) (lowest (λ y. 0) min a b)

-- The exclusive or of two binary digits.
abbrev pub odd_digit : ℕ → ℕ → ℕ
odd_digit x y = (x + y) % 2

differ_digits : (x y : ℕ) → x < 2 → y < 2 → differ x y ≡ odd_digit x y
differ_digits zero zero p q = refl
differ_digits zero (suc zero) p q = refl
differ_digits (suc zero) zero p q = refl
differ_digits (suc zero) (suc zero) p q = refl
differ_digits (suc (suc x)) y p q = absurd (omega arith)
differ_digits x (suc (suc y)) p q = absurd (omega arith)

bit_xor_lowest : (a b : ℕ) → bit_xor a b ≡ bit_xor (a / 2) (b / 2) * 2 + odd_digit (a % 2) (b % 2)
bit_xor_lowest zero b = rw (bit_xor-bitwise 0 b, bit_xor-bitwise (0 / 2) (b / 2)) (omega arith)
bit_xor_lowest (suc a) b =
    rw
      (
        bit_xor-bitwise (suc a) b,
        bit_xor-bitwise (suc a / 2) (b / 2),
        ← differ_digits (suc a % 2) (b % 2) (omega arith) (omega arith),
      )
      (lowest (λ y. y) differ a b)

-- Exclusive or with the same number twice gives the first number back.
bit_xor-cancel_below : (n a b : ℕ) → a ≤ n → b ≤ n → bit_xor (bit_xor a b) b ≡ a
bit_xor-cancel_below zero zero zero p q = refl
bit_xor-cancel_below zero (suc a) b p q = absurd (omega arith)
bit_xor-cancel_below zero zero (suc b) p q = absurd (omega arith)
bit_xor-cancel_below (suc n) a b p q =
    let x = bit_xor (a / 2) (b / 2) in
    let first = bit_xor_lowest a b in
    let half : bit_xor a b / 2 ≡ x = omega (arith, first) in
    let digit : bit_xor a b % 2 ≡ odd_digit (a % 2) (b % 2) = omega (arith, first) in
    let rest = bit_xor-cancel_below n (a / 2) (b / 2) (omega arith) (omega arith) in
    rw (bit_xor_lowest (bit_xor a b) b, half, digit, rest) (omega arith)

pub bit_xor-cancel : (a b : ℕ) → bit_xor (bit_xor a b) b ≡ a
bit_xor-cancel a b = bit_xor-cancel_below (a + b) a b (omega arith) (omega arith)

-- `(q << k) | r` is a sum when `r` has at most `k` bits.
bit_or-zero_below : (n a : ℕ) → a ≤ n → bit_or a 0 ≡ a
bit_or-zero_below zero zero p = refl
bit_or-zero_below zero (suc a) p = absurd (omega arith)
bit_or-zero_below (suc n) a p =
    omega (arith, bit_or_lowest a 0, bit_or-zero_below n (a / 2) (omega arith))

pub bit_or_disjoint : (k q r : ℕ) → r < 2 ^ k → bit_or (q * 2 ^ k) r ≡ q * 2 ^ k + r
bit_or_disjoint zero q r small =
    let none_left : r ≡ 0 = omega arith in
    rw none_left (omega (arith, bit_or-zero_below (q * 2 ^ 0) (q * 2 ^ 0) (omega arith)))
bit_or_disjoint (suc k) q r small =
    let shifted : q * 2 ^ suc k ≡ q * 2 ^ k * 2 =
      omega (arith, ap (λ (t : ℕ). q * t) (pow-suc 2 k)) in
    let half : q * 2 ^ suc k / 2 ≡ q * 2 ^ k = omega (arith, shifted) in
    let step = bit_or_lowest (q * 2 ^ suc k) r in
    let rest = bit_or_disjoint k q (r / 2) (omega (arith, pow-suc 2 k)) in
    omega (arith, rw half at step, rest, shifted)

bit_and-zero_below : (n a : ℕ) → a ≤ n → bit_and a 0 ≡ 0
bit_and-zero_below zero zero p = refl
bit_and-zero_below zero (suc a) p = absurd (omega arith)
bit_and-zero_below (suc n) a p =
    omega (arith, bit_and_lowest a 0, bit_and-zero_below n (a / 2) (omega arith))

-- One binary digit more of a remainder.
mod-twice : (p a : ℕ) → 0 < p → a % (p * 2) ≡ a / 2 % p * 2 + a % 2
mod-twice p a positive =
    let h = a / 2 in
    let low : ℕ = h % p * 2 + a % 2 in
    let parts : a ≡ low + h / p * (p * 2) = omega (arith, div-add-mod h p) in
    ap (λ (t : ℕ). t % (p * 2)) parts
    ∙ add-mul-mod_self_right low (h / p) (p * 2)
    ∙ mod-eq_of_lt (omega (arith, mod-lt h positive))

-- A mask of `k` ones keeps the remainder by `2 ^ k`.
pub bit_and_ones : (k a : ℕ) → bit_and a (2 ^ k - 1) ≡ a % 2 ^ k
bit_and_ones zero a = omega (arith, bit_and-zero_below a a (omega arith))
bit_and_ones (suc k) a =
    let positive : 1 ≤ 2 ^ k = one-le-pow k 2 (omega arith) in
    let twice = pow-suc 2 k in
    let half : (2 ^ suc k - 1) / 2 ≡ 2 ^ k - 1 = omega arith in
    let step = bit_and_lowest a (2 ^ suc k - 1) in
    let rest = bit_and_ones k (a / 2) in
    let split : a % 2 ^ suc k ≡ a / 2 % 2 ^ k * 2 + a % 2 =
      rw twice (mod-twice (2 ^ k) a positive) in
    let lowest_set : (2 ^ suc k - 1) % 2 ≡ 1 = omega arith in
    omega (arith, rw (half, lowest_set) at step, rest, split)

pub bit_xor_lt : (k a b : ℕ) → a < 2 ^ k → b < 2 ^ k → bit_xor a b < 2 ^ k
bit_xor_lt zero a b p q =
    let e : a ≡ 0 = omega arith in let f : b ≡ 0 = omega arith in rw (e, f) (omega arith)
bit_xor_lt (suc k) a b p q =
    let twice = pow-suc 2 k in
    let rest = bit_xor_lt k (a / 2) (b / 2) (omega arith) (omega arith) in
    omega (arith, bit_xor_lowest a b, rest, twice)
