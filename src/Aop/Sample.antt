-- ===== src/Aop/Sample.antt =====
-- Random samples without repetition: aop/algorithm/sample.go.
mod Tests
use Prim.Native.Nat.{min}
use mathlib.Core.List.{Perm, perm_append_singleton}
use mathlib.Core.List.Perm
use greatestworks.Base.{
  Bool-cases, List, Outcome, [], ap, append-snoc, arith, get_elem?, get_elem?_lem, if◌then◌else◌,
  inl, inr, length, length-append, length-set, none, panics, refl, returns, set, some, subst, suc,
  take, true, zero, ℕ, ◌++◌, ◌+◌, ◌-◌, ◌<◌, ◌∷◌, ◌≡◌, ◌≤◌,
}
use greatestworks.Base.Int.{ltb_ℤ, pos, pos_part, ℤ}

-- `rand i n` is what rand.Intn(n) answers in round `i`.
abbrev pub IsRandom : (ℕ → ℕ → ℕ) → Type 0
IsRandom rand = (i n : ℕ) → 0 < n → rand i n < n

module _ {A : Type 0} where
  -- The loop, with `left` elements left in `ts`: copyLength is `left`, and the last index `left - 1`.
  unfoldable pub sample_loop : (ℕ → ℕ → ℕ) → ℤ → ℕ → ℕ → List A → List A → Outcome (List A)
  sample_loop rand count zero i ts results = returns results
  sample_loop rand count (suc left) i ts results =
      if ltb_ℤ (pos i) count
      then elim (get_elem? ts (rand i (suc left))) [
        | none ↦ panics
        | some x ↦ elim (get_elem? ts left) [
          | none ↦ panics
          | some last ↦
              sample_loop rand count left (suc i) (take left (set ts (rand i (suc left)) last))
                (results ++ x ∷ [])
        ]
      ]
      else returns results

  unfoldable pub samples : (ℕ → ℕ → ℕ) → List A → ℤ → Outcome (List A)
  unfolding sample_loop
  samples rand collection count = sample_loop rand count (length collection) 0 collection []

  take_last :
      (l : ℕ) (xs : List A) {last : A}
      → length xs ≡ suc l
      → get_elem? xs l ≡ some last
      → take l xs ++ last ∷ [] ≡ xs
  take_last zero [] h e = absurd (omega (arith, h))
  take_last zero (x ∷ []) h e = ground (arith, e)
  take_last zero (x ∷ y ∷ xs) h e = absurd (omega (arith, h))
  take_last (suc l) [] h e = absurd (omega (arith, h))
  take_last (suc l) (x ∷ xs) h e = ap (λ r. x ∷ r) (take_last l xs (omega (arith, h)) e)

  -- Taking an element out by putting the last one in its place keeps what is there.
  swap_out-perm :
      (index left : ℕ) (ts : List A) {x last : A}
      → length ts ≡ suc left
      → index ≤ left
      → get_elem? ts index ≡ some x
      → get_elem? ts left ≡ some last
      → Perm (x ∷ take left (set ts index last)) ts
  swap_out-perm index left [] h le ex el = absurd (omega (arith, h))
  swap_out-perm zero zero (y ∷ []) {x} h le ex el =
      let e : x ≡ y = ground (arith, ex) in rw e (Perm.refl (y ∷ []))
  swap_out-perm zero zero (y ∷ z ∷ ys) h le ex el = absurd (omega (arith, h))
  swap_out-perm zero (suc l) (y ∷ ys) {x} {last} h le ex el =
      let e : x ≡ y = ground (arith, ex) in
      let last_moved : Perm (last ∷ take l ys) ys =
        subst (Perm (last ∷ take l ys)) (take_last l ys (omega (arith, h)) el)
          (Perm.symm (perm_append_singleton last (take l ys))) in
      rw e (Perm.cons y last_moved)
  swap_out-perm (suc i) zero (y ∷ ys) h le ex el = absurd (omega arith)
  swap_out-perm (suc i) (suc l) (y ∷ ys) {x} {last} h le ex el =
      Perm.trans (Perm.swap y x (take l (set ys i last)))
        (Perm.cons y (swap_out-perm i l ys (omega (arith, h)) (omega arith) ex el))

  -- The loop takes as many elements as the count asks for and the slice has, and together with what
  -- it leaves they are the elements there were.
  abbrev Splits : (ℕ → ℕ → ℕ) → ℤ → ℕ → ℕ → List A → List A → Type 0
  Splits rand count left i ts results =
      (out : List A) × (rest : List A) × (sample_loop rand count left i ts results ≡ returns out)
      × (length out ≡ length results + min left (pos_part count - i))
      × Perm (out ++ rest) (results ++ ts)

  length-take_lem : (n : ℕ) (xs : List A) → n ≤ length xs → length (take n xs) ≡ n
  length-take_lem zero xs h = refl
  length-take_lem (suc n) [] h = absurd (omega (arith, h))
  length-take_lem (suc n) (x ∷ xs) h = omega (arith, length-take_lem n xs)

  Splits-step :
      (rand : ℕ → ℕ → ℕ) (count : ℤ) (left i : ℕ) (ts results : List A) (x last : A)
      → ltb_ℤ (pos i) count ≡ true
      → get_elem? ts (rand i (suc left)) ≡ some x
      → get_elem? ts left ≡ some last
      → Perm (x ∷ take left (set ts (rand i (suc left)) last)) ts
      → Splits rand count left
          (suc i)
          (take left (set ts (rand i (suc left)) last))
          (results ++ x ∷ [])
      → Splits rand count (suc left) i ts results
  unfolding sample_loop
  Splits-step rand count left i ts results x last e ex el p (out, rest, run, len, perm) = (
    out,
    rest,
    ground (arith, e, ex, el, run),
    ground (arith, e, len, length-append results (x ∷ [])),
    Perm.trans (rw (append-snoc results x (take left (set ts (rand i (suc left)) last))) at perm)
        (Perm.append_left results p),
  )

  sample_loop-Splits :
      (rand : ℕ → ℕ → ℕ) (law : IsRandom rand) (count : ℤ) (left i : ℕ) (ts results : List A)
      → length ts ≡ left
      → Splits rand count left i ts results
  unfolding sample_loop
  sample_loop-Splits rand law count zero i ts results h =
      (results, ts, refl, omega arith, Perm.refl (results ++ ts))
  sample_loop-Splits rand law count (suc left) i ts results h =
      elim (Bool-cases (ltb_ℤ (pos i) count)) [
        | inr e ↦ (results, ts, ground (arith, e), ground (arith, e), Perm.refl (results ++ ts))
        | inl e ↦
            let b : rand i (suc left) < suc left = law i (suc left) (omega arith) in
            let (x, ex, m) = get_elem?_lem ts (rand i (suc left)) (omega (arith, b, h)) in
            let (last, el, n) = get_elem?_lem ts left (omega (arith, h)) in
            Splits-step rand count left i ts results x last e ex el
              (swap_out-perm (rand i (suc left)) left ts h (omega (arith, b)) ex el)
              (sample_loop-Splits rand law count left (suc i)
                (take left (set ts (rand i (suc left)) last)) (results ++ x ∷ [])
                (length-take_lem left (set ts (rand i (suc left)) last)
                  (omega (arith, h, length-set ts (rand i (suc left)) last))))
      ]

-- `Samples` never panics, whatever random numbers it is given, and answers as many elements as the
-- count asks for, or all if there are fewer. The answer and some other elements are together the
-- elements of the collection, each as often: no element is taken twice.
pub samples-perm :
    {A : Type 0} (rand : ℕ → ℕ → ℕ) (law : IsRandom rand) (collection : List A) (count : ℤ)
    → (out : List A) × (rest : List A) × (samples rand collection count ≡ returns out)
      × (length out ≡ min (length collection) (pos_part count))
      × Perm (out ++ rest) collection
unfolding samples
samples-perm rand law collection count =
    let (out, rest, run, len, perm) =
      sample_loop-Splits rand law count (length collection) 0 collection [] refl in
    (out, rest, run, omega (arith, len), perm)
