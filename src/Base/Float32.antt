-- ===== src/Base/Float32.antt =====
-- Go's `float32`, as far as the program uses it: the type and its operations are a parameter.
use greatestworks.Base.{Bool, arith, leb, ltb, true, ℕ, ◌*◌, ◌/◌, ◌<◌, ◌≡◌, ◌≤◌}
use greatestworks.Base.Int.{negsuc, pos, pos_part, ℤ, ◌≤ℤ◌}

pub record Float32 : Type 1 where
  pub F : Type 0
  pub of_int : ℤ → F
  pub mul : F → F → F
  pub div : F → F → F
  pub lt : F → F → Bool
  pub le : F → F → Bool
  -- the conversion `int32(f)`
  pub to_int32 : F → ℤ
  -- the literal n / 10
  pub tenths : ℕ → F

-- What IEEE 754 promises of a quotient by a positive number: rounding keeps the order of the
-- numerators. And 0.2 lies below 0.7.
pub record IsMonotone (fl : Float32) : Type 0 where
  pub div_mono :
      (p q : ℤ) (m : ℕ) (r : fl.F)
      → p ≤ℤ q
      → 0 < m
      → fl.lt (fl.div (fl.of_int q) (fl.of_int (pos m))) r ≡ true
      → fl.lt (fl.div (fl.of_int p) (fl.of_int (pos m))) r ≡ true
  pub below_busy : (f : fl.F) → fl.lt f (fl.tenths 2) ≡ true → fl.lt f (fl.tenths 7) ≡ true

-- Quotients in thousandths, rounded down: a model in which the laws hold.
abbrev pub thousandths : Float32
thousandths = record {
  F = ℕ;
  of_int = pos_part;
  mul = λ a b. a * b / 1000;
  div = λ a b. a * 1000 / b;
  lt = ltb;
  le = leb;
  to_int32 = pos;
  tenths = λ n. n * 100;
}

div_mono_lem : (a b m : ℕ) → a ≤ b → 0 < m → a * 1000 / m ≤ b * 1000 / m
div_mono_lem a b m h k = grind arith

ltb_mono :
    (p q : ℤ) (m r : ℕ)
    → p ≤ℤ q
    → 0 < m
    → ltb (pos_part q * 1000 / m) r ≡ true
    → ltb (pos_part p * 1000 / m) r ≡ true
ltb_mono (pos a) (pos b) m r h k l = ground (arith, div_mono_lem a b m)
ltb_mono (pos a) (negsuc b) m r h k l = absurd (omega arith)
ltb_mono (negsuc a) q m r h k l = ground (arith, div_mono_lem 0 (pos_part q) m)

pub thousandths-IsMonotone : IsMonotone thousandths
thousandths-IsMonotone = record {
  div_mono = λ p q m r h k l. ltb_mono p q m r h k l;
  below_busy = λ f h. ground arith;
}
