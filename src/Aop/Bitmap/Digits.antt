-- ===== src/Aop/Bitmap/Digits.antt =====
-- The digits of a byte: what aop/bitmap/simple.go relies on.
use Prim.Native.Nat.{max}
use native.Mathlib.Nat.{mul_assoc}
use greatestworks.Aop.Bitmap.{and_byte, or_byte}
use greatestworks.Base.{
  ap, arith, if◌then◌else◌, not, refl, subst, suc, zero, ℕ, ◌%◌, ◌*◌, ◌+◌, ◌-◌, ◌/◌, ◌<◌, ◌==◌, ◌^◌,
  ◌||◌, ◌∙◌, ◌≡◌, ◌≤◌,
}
use greatestworks.Base.Bits.{and_bits, or_bits}

abbrev pub digit : ℕ → ℕ → ℕ
digit zero b = b % 2
digit (suc j) b = digit j (b / 2)

digit-zero : (j : ℕ) → digit j 0 ≡ 0
digit-zero zero = refl
digit-zero (suc j) = digit-zero j

pub digit-or_bits : (w j a b : ℕ) → j < w → digit j (or_bits w a b) ≡ max (digit j a) (digit j b)
digit-or_bits zero j a b h = absurd (omega (arith, h))
digit-or_bits (suc w) zero a b h = omega arith
digit-or_bits (suc w) (suc j) a b h =
    let half : or_bits (suc w) a b / 2 ≡ or_bits w (a / 2) (b / 2) = omega arith in
    ap (digit j) half ∙ digit-or_bits w j (a / 2) (b / 2) (omega (arith, h))

power_half : (k : ℕ) → (2 ^ suc k / 2 ≡ 2 ^ k) × (2 ^ suc k % 2 ≡ 0)
power_half k = (omega arith, omega arith)

pub digit-power : (j k : ℕ) → digit j (2 ^ k) ≡ (if j == k then 1 else 0)
digit-power zero zero = refl
digit-power zero (suc k) = ground (arith, (power_half k).1)
digit-power (suc j) zero = ground (arith, digit-zero j)
digit-power (suc j) (suc k) = ap (digit j) (power_half k).0 ∙ digit-power j k ∙ ground arith

and_bits-zero : (w a : ℕ) → and_bits w a 0 ≡ 0
and_bits-zero zero a = refl
and_bits-zero (suc w) a = ground (arith, and_bits-zero w (a / 2))

pub and_bits-power : (w k a : ℕ) → k < w → and_bits w a (2 ^ k) ≡ digit k a * 2 ^ k
and_bits-power zero k a h = absurd (omega (arith, h))
and_bits-power (suc w) zero a h = ground (arith, and_bits-zero w (a / 2))
and_bits-power (suc w) (suc k) a h =
    let (p, q) = power_half k in
    let rest = and_bits-power w k (a / 2) (omega (arith, h)) in
    let twice : 2 ^ suc k ≡ 2 ^ k * 2 = omega arith in
    rw (p, q, rest, twice) (ground (arith, mul_assoc (digit k (a / 2)) (2 ^ k) 2))

power_positive : (k : ℕ) → 0 < 2 ^ k
power_positive zero = omega arith
power_positive (suc k) = omega (arith, power_positive k)

power_grows : (k n : ℕ) → 2 ^ k ≤ 2 ^ (n + k)
power_grows k zero = let e : 0 + k ≡ k = omega arith in rw (e) (omega arith)
power_grows k (suc n) =
    let e : suc n + k ≡ suc (n + k) = omega arith in rw (e) (omega (arith, power_grows k n))

-- 1 << k as a byte.
pub one_shifted : (k : ℕ) → k < 8 → (1 * 2 ^ k % 2 ^ 8 ≡ 2 ^ k) × (0 < 2 ^ k)
one_shifted k h =
    let seven : 7 - k + k ≡ 7 = omega (arith, h) in
    let small : 2 ^ k ≤ 2 ^ 7 = subst (λ x. 2 ^ k ≤ 2 ^ x) seven (power_grows k (7 - k)) in
    (omega (arith, small), power_positive k)

pub digit-bound : (j b : ℕ) → digit j b ≤ 1
digit-bound zero b = omega arith
digit-bound (suc j) b = digit-bound j (b / 2)

pub digit-nothing : (j : ℕ) → digit j 0 ≡ 0
digit-nothing j = digit-zero j

-- What is left of a byte by the digit that the map tests.
pub tested : (k b : ℕ) → k < 8 → not (and_byte b (1 * 2 ^ k % 2 ^ 8) == 0) ≡ (digit k b == 1)
unfolding and_byte
tested k b h =
    let (one, positive) = one_shifted k h in
    let bit : and_byte b (1 * 2 ^ k % 2 ^ 8) ≡ digit k b * 2 ^ k =
      ap (and_bits 8 b) one ∙ and_bits-power 8 k b h in
    ap (λ x. not (x == 0)) bit ∙ by_digit (digit k b) (2 ^ k) (digit-bound k b) positive
  where
    by_digit : (d p : ℕ) → d ≤ 1 → 0 < p → not (d * p == 0) ≡ (d == 1)
    by_digit zero p l h = ground (arith, h)
    by_digit (suc zero) p l h = ground (arith, h)
    by_digit (suc (suc d)) p l h = absurd (omega (arith, l))

pub digit-set :
    (j k b : ℕ)
    → j < 8
    → k < 8
    → (digit j (or_byte b (1 * 2 ^ k % 2 ^ 8)) == 1) ≡ (k == j) || (digit j b == 1)
unfolding or_byte
digit-set j k b h l =
    let or : or_byte b (1 * 2 ^ k % 2 ^ 8) ≡ or_bits 8 b (2 ^ k) =
      ap (or_bits 8 b) (one_shifted k l).0 in
    ap (λ x. digit j x == 1) or
    ∙ ap (λ x. x == 1)
        (digit-or_bits 8 j b (2 ^ k) h ∙ ap (λ x. max (digit j b) x) (digit-power j k))
    ∙ by_digits (digit j b) (digit-bound j b)
  where
    by_digits : (d : ℕ) → d ≤ 1 → (max d (if j == k then 1 else 0) == 1) ≡ (k == j) || (d == 1)
    by_digits d l = ground (arith, l)

pub cleared : (k b : ℕ) → and_byte b (0 * 2 ^ k % 2 ^ 8) ≡ 0
unfolding and_byte
cleared k b =
    let none_left : 0 * 2 ^ k % 2 ^ 8 ≡ 0 = omega arith in
    ap (and_bits 8 b) none_left ∙ and_bits-zero 8 b
