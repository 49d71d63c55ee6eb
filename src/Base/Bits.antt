-- ===== src/Base/Bits.antt =====
-- Go's `|`, `&`, `<<` and `>>` on `int64`, by the binary digits of the 64-bit words.
use Prim.Native.Nat.{ℕ, zero, suc, ◌+◌, ◌-◌, ◌*◌, ◌/◌, ◌%◌, ◌^◌, ◌<◌, min, max}
use mathlib.Core.Path.{◌≡◌, refl, ap, sym, ◌∙◌}
use native.Mathlib.Omega.{arith}
use native.Mathlib.Nat.{add-mul-mod_self_left, div-add-mod, mod-eq_of_lt, mul_assoc}
use greatestworks.Base.Int.{ℤ, pos, negsuc, mod_ℤ, wrap, wrap_int, ◌*ℤ◌}

-- The lowest `w` digits of the or and the and of two numbers.
abbrev pub or_bits : ℕ → ℕ → ℕ → ℕ
or_bits zero a b = 0
or_bits (suc w) a b = or_bits w (a / 2) (b / 2) * 2 + max (a % 2) (b % 2)

abbrev pub and_bits : ℕ → ℕ → ℕ → ℕ
and_bits zero a b = 0
and_bits (suc w) a b = and_bits w (a / 2) (b / 2) * 2 + min (a % 2) (b % 2)

-- The or of two uint64.
unfoldable pub or_uint64 : ℕ → ℕ → ℕ
or_uint64 a b = or_bits 64 a b

unfoldable pub or_int : ℤ → ℤ → ℤ
unfolding wrap_int wrap
or_int a b = wrap_int (pos (or_bits 64 (mod_ℤ a (2 ^ 64)) (mod_ℤ b (2 ^ 64))))

unfoldable pub and_int : ℤ → ℤ → ℤ
unfolding wrap_int wrap
and_int a b = wrap_int (pos (and_bits 64 (mod_ℤ a (2 ^ 64)) (mod_ℤ b (2 ^ 64))))

unfoldable pub shift_left : ℤ → ℕ → ℤ
unfolding wrap_int wrap ◌*ℤ◌
shift_left a k = wrap_int (a *ℤ pos (2 ^ k))

-- The arithmetic shift rounds down.
abbrev pub shift_right : ℤ → ℕ → ℤ
shift_right (pos n) k = pos (n / 2 ^ k)
shift_right (negsuc n) k = negsuc (n / 2 ^ k)

pow_pos : (k : ℕ) → 0 < 2 ^ k
pow_pos zero = omega arith
pow_pos (suc k) = omega (arith, pow_pos k)

half_mod : (a p : ℕ) → 0 < p → a % (p * 2) ≡ a / 2 % p * 2 + a % 2
half_mod a p h =
    let q = a / 2 / p in
    let r = a / 2 % p in
    let low : r < p = omega arith in
    let e : a ≡ (r * 2 + a % 2) + p * 2 * q = ground (arith, div-add-mod (a / 2) p) in
    let c : (r * 2 + a % 2) % (p * 2) ≡ r * 2 + a % 2 = mod-eq_of_lt (omega arith) in
    ap (λ x. x % (p * 2)) e ∙ add-mul-mod_self_left (r * 2 + a % 2) (p * 2) q ∙ c

or_bits-zero : (w a : ℕ) → or_bits w a 0 ≡ a % 2 ^ w
or_bits-zero zero a = ground arith
or_bits-zero (suc w) a = ground (arith, or_bits-zero w (a / 2), half_mod a (2 ^ w) (pow_pos w))

pub or_bits_shifted :
    (k m a b : ℕ) → b < 2 ^ k → or_bits (k + m) (a * 2 ^ k) b ≡ a % 2 ^ m * 2 ^ k + b
or_bits_shifted zero m a b h = ground (arith, or_bits-zero m a)
or_bits_shifted (suc k) m a b h =
    let e : suc k + m ≡ suc (k + m) = omega arith in
    let p : ℕ = a * 2 ^ k in
    let w : 2 ^ suc k ≡ 2 ^ k * 2 = omega arith in
    let x : a * 2 ^ suc k ≡ p * 2 = ap (λ t. a * t) w ∙ sym (mul_assoc a (2 ^ k) 2) in
    let y : a % 2 ^ m * 2 ^ suc k ≡ a % 2 ^ m * 2 ^ k * 2 =
      ap (λ t. a % 2 ^ m * t) w ∙ sym (mul_assoc (a % 2 ^ m) (2 ^ k) 2) in
    let half : p * 2 / 2 ≡ p = omega arith in
    let rest : or_bits (k + m) p (b / 2) ≡ a % 2 ^ m * 2 ^ k + b / 2 =
      or_bits_shifted k m a (b / 2) (omega (arith, h)) in
    rw (e, x, y, half, rest) (omega arith)

and_bits-zero : (w a : ℕ) → and_bits w a 0 ≡ 0
and_bits-zero zero a = refl
and_bits-zero (suc w) a = ground (arith, and_bits-zero w (a / 2))

pub and_bits_mask : (k m a : ℕ) → and_bits (k + m) a (2 ^ k - 1) ≡ a % 2 ^ k
and_bits_mask zero m a = ground (arith, and_bits-zero m a)
and_bits_mask (suc k) m a =
    let e : suc k + m ≡ suc (k + m) = omega arith in
    let w : 2 ^ suc k ≡ 2 ^ k * 2 = omega arith in
    let half : (2 ^ k * 2 - 1) / 2 ≡ 2 ^ k - 1 = omega (arith, pow_pos k) in
    let odd : (2 ^ k * 2 - 1) % 2 ≡ 1 = omega (arith, pow_pos k) in
    rw (e, w, half, odd, and_bits_mask k m (a / 2), half_mod a (2 ^ k) (pow_pos k)) (omega arith)

pub or_uint64_shifted :
    (k m hi lo x y : ℕ)
    → k + m ≡ 64
    → hi < 2 ^ m
    → lo < 2 ^ k
    → x ≡ hi * 2 ^ k
    → y ≡ lo
    → or_uint64 x y ≡ hi * 2 ^ k + lo
unfolding or_uint64
or_uint64_shifted k m hi lo x y e h l p q =
    let small : hi % 2 ^ m ≡ hi = mod-eq_of_lt h in
    let at : or_bits 64 (hi * 2 ^ k) lo ≡ hi * 2 ^ k + lo =
      ap (λ w. or_bits w (hi * 2 ^ k) lo) (sym e)
      ∙ or_bits_shifted k m hi lo l
      ∙ ap (λ t. t * 2 ^ k + lo) small in
    ap (λ t. or_bits 64 t y) p ∙ ap (λ t. or_bits 64 (hi * 2 ^ k) t) q ∙ at
