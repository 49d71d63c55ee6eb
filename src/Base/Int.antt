-- ===== src/Base/Int.antt =====
-- Go's signed integers: integers over the native numbers, and the wrap-around of `int64`.
use mathlib.Core.Path.{◌≡◌}
use native.Mathlib.Omega.{arith}
use Prim.Native.Nat.{ℕ, suc, ◌<◌, ◌+◌, ◌-◌, ◌^◌, ◌%◌, ◌*◌, ◌/◌, ◌≤◌}
use mathlib.Core.Path.{ap}
use mathlib.Core.Bool.{Bool}
use native.Mathlib.Decide.{ℕ_discrete}
use greatestworks.Base.Tests.{if◌then◌else◌, leb, ltb}

-- `negsuc n` is -(n + 1).
pub data ℤ : Type 0 where
  pos : ℕ → ℤ
  negsuc : ℕ → ℤ

abbrev pub pos_part : ℤ → ℕ
pos_part (pos n) = n
pos_part (negsuc n) = 0

abbrev pub neg_part : ℤ → ℕ
neg_part (pos n) = 0
neg_part (negsuc n) = suc n

-- a - b, as an integer.
abbrev pub sub_ℕ : ℕ → ℕ → ℤ
sub_ℕ a b = if leb b a then pos (a - b) else negsuc (b - a - 1)

abbrev pub ltb_ℤ : ℤ → ℤ → Bool
ltb_ℤ a b = ltb (pos_part a + neg_part b) (pos_part b + neg_part a)

abbrev pub leb_ℤ : ℤ → ℤ → Bool
leb_ℤ a b = leb (pos_part a + neg_part b) (pos_part b + neg_part a)

infix 50 ◌≤ℤ◌
abbrev pub ◌≤ℤ◌ : ℤ → ℤ → Type 0
a ≤ℤ b = pos_part a + neg_part b ≤ pos_part b + neg_part a

infixl 65 ◌+ℤ◌ ◌-ℤ◌
infixl 70 ◌*ℤ◌
unfoldable pub ◌+ℤ◌ : ℤ → ℤ → ℤ
a +ℤ b = sub_ℕ (pos_part a + pos_part b) (neg_part a + neg_part b)

unfoldable pub ◌-ℤ◌ : ℤ → ℤ → ℤ
a -ℤ b = sub_ℕ (pos_part a + neg_part b) (neg_part a + pos_part b)

-- The remainder of an integer by a positive number, from 0 up.
abbrev pub mod_ℤ : ℤ → ℕ → ℕ
mod_ℤ (pos n) m = n % m
mod_ℤ (negsuc n) m = m - 1 - n % m

-- The signed integer of `w` bits that an exact result `z` wraps around to.
unfoldable pub wrap : ℕ → ℤ → ℤ
wrap w z =
    let bits = mod_ℤ z (2 ^ w) in
    if ltb bits (2 ^ (w - 1)) then pos bits else negsuc (2 ^ w - 1 - bits)

-- `int` is 64 bits wide.
unfoldable pub wrap_int : ℤ → ℤ
unfolding wrap
wrap_int = wrap 64

unfoldable pub wrap_int32 : ℤ → ℤ
unfolding wrap
wrap_int32 = wrap 32

map_dec : {A B : Type 0} → (A → B) → (B → A) → Dec A → Dec B
map_dec f g (yes a) = yes (f a)
map_dec f g (no h) = no (λ b. h (g b))

unfoldable pub ℤ_discrete : Discrete ℤ
unfolding map_dec ℕ_discrete
ℤ_discrete (pos a) (pos b) = map_dec (ap pos) (λ e. cc) (ℕ_discrete a b)
ℤ_discrete (pos a) (negsuc b) = no (λ e. cc)
ℤ_discrete (negsuc a) (pos b) = no (λ e. cc)
ℤ_discrete (negsuc a) (negsuc b) = map_dec (ap negsuc) (λ e. cc) (ℕ_discrete a b)

unfoldable pub ◌*ℤ◌ : ℤ → ℤ → ℤ
a *ℤ b =
    sub_ℕ (pos_part a * pos_part b + neg_part a * neg_part b)
      (pos_part a * neg_part b + neg_part a * pos_part b)

-- An exact result that is no negative number and fits is kept.
pub wrap_int-pos : (n : ℕ) → n < 2 ^ 63 → wrap_int (pos n) ≡ pos n
unfolding wrap_int wrap
wrap_int-pos n h = ground (arith, h)

pub wrap_int-add : (a b : ℕ) → a + b < 2 ^ 63 → wrap_int (pos a +ℤ pos b) ≡ pos (a + b)
unfolding ◌+ℤ◌
wrap_int-add a b h = ground (arith, wrap_int-pos (a + b) h)

pub wrap_int-sub : (a b : ℕ) → b ≤ a → a < 2 ^ 63 → wrap_int (pos a -ℤ pos b) ≡ pos (a - b)
unfolding ◌-ℤ◌
wrap_int-sub a b h k = ground (arith, wrap_int-pos (a - b) (omega (arith, k)))

-- A negative result that fits is kept.
pub wrap_int-negsuc : (n : ℕ) → n < 2 ^ 63 → wrap_int (negsuc n) ≡ negsuc n
unfolding wrap_int wrap
wrap_int-negsuc n h = ground (arith, h)

pub wrap_int-sub_below :
    (a b : ℕ) → a < b → b < 2 ^ 63 → wrap_int (pos a -ℤ pos b) ≡ negsuc (b - a - 1)
unfolding ◌-ℤ◌
wrap_int-sub_below a b h k = ground (arith, wrap_int-negsuc (b - a - 1) (omega (arith, k)))

-- Go's division rounds towards 0; a division by 0 is tested for where it panics.
abbrev pub magnitude : ℤ → ℕ
magnitude z = pos_part z + neg_part z

abbrev pub quot : ℤ → ℤ → ℤ
quot a b =
    let q = magnitude a / magnitude b in
    if leb (neg_part a) 0
    then (if leb (neg_part b) 0 then pos q else sub_ℕ 0 q)
    else if leb (neg_part b) 0
    then sub_ℕ 0 q
    else pos q

pub wrap_int32-pos : (n : ℕ) → n < 2 ^ 31 → wrap_int32 (pos n) ≡ pos n
unfolding wrap_int32 wrap
wrap_int32-pos n h = ground (arith, h)
