-- ===== src/Aop/Time/Months.antt =====
-- The days of two days in a row are not the same: the calendar that aop/fn/time.go reads.
use greatestworks.Aop.Time.{cycle, month_day, months}
use greatestworks.Base.{
  Bool-cases, List, [], ap, arith, inl, inr, ltb, refl, suc, zero, ℕ, ℕ_discrete, ◌%◌, ◌++◌, ◌-◌,
  ◌∙◌, ◌∷◌, ◌≡◌, ◌≤◌,
}

abbrev AreMonths : List ℕ → Type 0
AreMonths [] = Unit
AreMonths (m ∷ ms) = (2 ≤ m) × AreMonths ms

AreMonths-append : (xs ys : List ℕ) → AreMonths xs → AreMonths ys → AreMonths (xs ++ ys)
AreMonths-append [] ys h k = k
AreMonths-append (m ∷ xs) ys (h, hs) k = (h, AreMonths-append xs ys hs k)

months-AreMonths : (year : ℕ) → AreMonths (months year)
months-AreMonths year = ground arith

cycle-AreMonths : (left : ℕ) → AreMonths (cycle left)
unfolding cycle
cycle-AreMonths zero = tt
cycle-AreMonths (suc left) =
    AreMonths-append (months (400 - left)) (cycle left) (months-AreMonths (400 - left))
      (cycle-AreMonths left)

month_day-first : (ms : List ℕ) → AreMonths ms → month_day ms 0 ≡ 1
unfolding month_day
month_day-first [] h = refl
month_day-first (m ∷ ms) (h, hs) = ground (arith, h)

month_day-next : (ms : List ℕ) (d : ℕ) → AreMonths ms → ¬ (month_day ms d ≡ month_day ms (suc d))
unfolding month_day
month_day-next [] d h e = omega (arith, e)
month_day-next (m ∷ ms) d (h, hs) e = elim (Bool-cases (ltb d m)) [
  | inl a ↦ absurd (ground (arith, e, a, h, month_day-first ms hs))
  | inr b ↦
      let later : suc d - m ≡ suc (d - m) = ground (arith, b) in
      month_day-next ms (d - m) hs (ground (arith, e, b, later))
]

last_day : month_day (cycle 400) 146096 ≡ 31
unfolding month_day cycle
last_day = refl

-- Days in a row have different days of their months, also where the 400 years begin again.
pub month_day-cycle :
    (d e : ℕ)
    → e ≡ suc d
    → ¬ (month_day (cycle 400) (d % 146097) ≡ month_day (cycle 400) (e % 146097))
month_day-cycle d e p q = elim (ℕ_discrete (d % 146097) 146096) [
  | yes y ↦
      let z : e % 146097 ≡ 0 = omega (arith, p, y) in
      ground (arith, q, y, z, last_day, month_day-first (cycle 400) (cycle-AreMonths 400))
  | no n ↦
      let z : e % 146097 ≡ suc (d % 146097) = omega (arith, p, n) in
      month_day-next (cycle 400) (d % 146097) (cycle-AreMonths 400)
        (q ∙ ap (month_day (cycle 400)) z)
]
