-- ===== src/Aop/Sample/Tests.antt =====
-- Tests of the samples.
use mathlib.Core.List.{Perm}
use greatestworks.Aop.Sample.{IsRandom, samples, samples-perm}
use greatestworks.Base.{List, [], arith, length, refl, returns, ℕ, ◌%◌, ◌++◌, ◌∷◌, ◌≡◌}
use greatestworks.Base.Int.{pos}

samples_runs : samples {A = ℕ} (λ i n. i % n) (5 ∷ 6 ∷ 7 ∷ []) (pos 2) ≡ returns (5 ∷ 6 ∷ [])
unfolding samples
samples_runs = refl

mod-IsRandom : IsRandom (λ i n. i % n)
mod-IsRandom i n h = grind arith

samples-perm_example :
    (out : List ℕ) × (rest : List ℕ) × (samples (λ i n. i % n) (5 ∷ 6 ∷ 7 ∷ []) (pos 2)
      ≡ returns out)
    × (length out ≡ 2)
    × Perm (out ++ rest) (5 ∷ 6 ∷ 7 ∷ [])
samples-perm_example = samples-perm (λ i n. i % n) mod-IsRandom (5 ∷ 6 ∷ 7 ∷ []) (pos 2)
