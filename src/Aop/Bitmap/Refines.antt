-- ===== src/Aop/Bitmap/Refines.antt =====
-- A bit map as the set of numbers that it stands for: aop/bitmap/simple.go.
use greatestworks.Aop.Bitmap.{BitMap, del_bit, is_exist, new_bit_map, or_byte, set_bit}
use greatestworks.Aop.Bitmap.Digits.{cleared, digit, digit-nothing, digit-set, tested}
use greatestworks.Base.{
  All, Bool, List, Outcome, [], ap, arith, false, get_elem?, get_elem?-set, get_elem?_lem,
  if◌then◌else◌, length, length-replicate, length-set, not, panics, refl, replicate, returns, set,
  some, suc, sym, true, zero, ℕ, ℕ_discrete, ◌%◌, ◌&&◌, ◌*◌, ◌+◌, ◌/◌, ◌<◌, ◌==◌, ◌^◌, ◌||◌, ◌∙◌,
  ◌∷◌, ◌≡◌, ◌≤◌,
}

pub data Call : Type 0 where
  set_call del_call : ℕ → Call

abbrev pub number : Call → ℕ
number (set_call n) = n
number (del_call n) = n

abbrev pub run_call : Call → BitMap → Outcome BitMap
run_call (set_call n) bt = set_bit n bt
run_call (del_call n) bt = del_bit n bt

abbrev pub run_all : List Call → BitMap → Outcome BitMap
run_all [] bt = returns bt
run_all (c ∷ cs) bt = elim (run_call c bt) [ panics ↦ panics | returns bt' ↦ run_all cs bt' ]

-- The set afterwards: a number that is put in is in it, and a number that is taken out takes the
-- numbers of its byte with it.
abbrev pub after_call : Call → (ℕ → Bool) → ℕ → Bool
after_call (set_call n) f m = (n == m) || f m
after_call (del_call n) f m = not (n / 8 == m / 8) && f m

abbrev pub after_all : List Call → (ℕ → Bool) → ℕ → Bool
after_all [] f = f
after_all (c ∷ cs) f = after_all cs (after_call c f)

abbrev pub Shows : ℕ → BitMap → (ℕ → Bool) → Type 0
Shows size bt f = (length bt ≡ size / 8 + 1) × ((m : ℕ) → m ≤ size → is_exist m bt ≡ returns (f m))

module _ (m : ℕ) (bt : BitMap) (h : m / 8 < length bt) where
  is_exist_lem :
      (b : ℕ) → get_elem? bt (m / 8) ≡ some b → is_exist m bt ≡ returns (digit (m % 8) b == 1)
  unfolding is_exist
  is_exist_lem b e = ground (arith, e, h, tested (m % 8) b (omega arith))

  set_bit_lem :
      (b : ℕ)
      → get_elem? bt (m / 8) ≡ some b
      → set_bit m bt ≡ returns (set bt (m / 8) (or_byte b (1 * 2 ^ (m % 8) % 2 ^ 8)))
  unfolding set_bit
  set_bit_lem b e = ground (arith, e, h)

  del_bit_lem : (b : ℕ) → get_elem? bt (m / 8) ≡ some b → del_bit m bt ≡ returns (set bt (m / 8) 0)
  unfolding del_bit
  del_bit_lem b e = ground (arith, e, h, cleared (m % 8) b)

-- What a byte that changes does to the numbers of the map.
is_exist-set :
    (m n b v : ℕ) (bt : BitMap) (x : Bool)
    → m / 8 < length bt
    → n / 8 < length bt
    → get_elem? bt (n / 8) ≡ some b
    → is_exist m bt ≡ returns x
    → is_exist m (set bt (n / 8) v) ≡ returns (if n / 8 == m / 8 then digit (m % 8) v == 1 else x)
is_exist-set m n b v bt x hm hn e f =
    let kept : m / 8 < length (set bt (n / 8) v) = omega (arith, hm, length-set bt (n / 8) v) in
    let at = get_elem?-set bt (n / 8) (m / 8) v hn in
    let (c, g, _) = get_elem?_lem bt (m / 8) hm in
    elim (ℕ_discrete (n / 8) (m / 8)) [
      | yes same ↦
          ground (arith, same, is_exist_lem m (set bt (n / 8) v) kept v (ground (arith, at, same)))
      | no other ↦
          let after = is_exist_lem m (set bt (n / 8) v) kept c (ground (arith, at, other, g)) in
          let before = is_exist_lem m bt hm c g in ground (arith, other, after, before, f)
    ]

in_byte : (t : Bool) → t ≡ true → (y x : Bool) → (if t then y else x) ≡ y
in_byte true h y x = refl
in_byte false h y x = absurd (cc)

bit_eq :
    (m n b : ℕ) (bt : BitMap) (x : Bool)
    → m / 8 < length bt
    → get_elem? bt (n / 8) ≡ some b
    → is_exist m bt ≡ returns x
    → (if n / 8 == m / 8 then digit (m % 8) (or_byte b (1 * 2 ^ (n % 8) % 2 ^ 8)) == 1 else x)
      ≡ (n == m) || x
bit_eq m n b bt x hm e f = elim (ℕ_discrete (n / 8) (m / 8)) [
  | yes same ↦
      let byte : get_elem? bt (m / 8) ≡ some b = ap (get_elem? bt) (sym same) ∙ e in
      let was = is_exist_lem m bt hm b byte in
      let bits = digit-set (m % 8) (n % 8) b (omega arith) (omega arith) in
      let eqs : (n % 8 == m % 8) ≡ (n == m) = ground (arith, same) in
      let xs : (digit (m % 8) b == 1) ≡ x = ground (arith, was, f) in
      in_byte (n / 8 == m / 8) (ground (arith, same)) _ x
      ∙ bits
      ∙ ap (λ y. y || (digit (m % 8) b == 1)) eqs
      ∙ ap (λ y. (n == m) || y) xs
  | no other ↦ ground (arith, other)
]

Shows-run_call :
    (size : ℕ) (c : Call) (bt : BitMap) (f : ℕ → Bool)
    → number c ≤ size
    → Shows size bt f
    → (bt' : BitMap) × (run_call c bt ≡ returns bt') × Shows size bt' (after_call c f)
Shows-run_call size (set_call n) bt f le (len, shows) =
    let hn : n / 8 < length bt = omega (arith, le, len) in
    let (b, e, _) = get_elem?_lem bt (n / 8) hn in
    let v = or_byte b (1 * 2 ^ (n % 8) % 2 ^ 8) in
    (
      set bt (n / 8) v,
      set_bit_lem n bt hn b e,
      (
        omega (arith, len, length-set bt (n / 8) v),
        λ m h.
            let hm : m / 8 < length bt = omega (arith, h, len) in
            is_exist-set m n b v bt (f m) hm hn e (shows m h)
            ∙ ap returns (bit_eq m n b bt (f m) hm e (shows m h)),
      ),
    )
Shows-run_call size (del_call n) bt f le (len, shows) =
    let hn : n / 8 < length bt = omega (arith, le, len) in
    let (b, e, _) = get_elem?_lem bt (n / 8) hn in
    (
      set bt (n / 8) 0,
      del_bit_lem n bt hn b e,
      (
        omega (arith, len, length-set bt (n / 8) 0),
        λ m h.
            let hm : m / 8 < length bt = omega (arith, h, len) in
            is_exist-set m n b 0 bt (f m) hm hn e (shows m h)
            ∙ ground (arith, digit-nothing (m % 8)),
      ),
    )

zeros : ℕ → BitMap
zeros n = replicate n 0

get_elem?-zeros : (n i : ℕ) → i < n → get_elem? (zeros n) i ≡ some 0
unfolding zeros
get_elem?-zeros zero i h = absurd (omega (arith, h))
get_elem?-zeros (suc n) zero h = refl
get_elem?-zeros (suc n) (suc i) h = get_elem?-zeros n i (omega (arith, h))

Shows-new_bit_map : (size : ℕ) → Shows size (new_bit_map size) (λ m. false)
unfolding new_bit_map zeros
Shows-new_bit_map size =
    let len : length (zeros (size / 8 + 1)) ≡ size / 8 + 1 =
      length-replicate {A = ℕ} (size / 8 + 1) 0 in
    (
      len,
      λ m h.
          let hm : m / 8 < length (zeros (size / 8 + 1)) = omega (arith, h, len) in
          is_exist_lem m (zeros (size / 8 + 1)) hm 0
            (get_elem?-zeros (size / 8 + 1) (m / 8) (omega (arith, h)))
          ∙ ground (arith, digit-nothing (m % 8)),
    )

Shows-run_all :
    (size : ℕ) (cs : List Call) (bt : BitMap) (f : ℕ → Bool)
    → All (λ c. number c ≤ size) cs
    → Shows size bt f
    → (bt' : BitMap) × (run_all cs bt ≡ returns bt') × Shows size bt' (after_all cs f)
Shows-run_all size [] bt f h s = (bt, refl, s)
Shows-run_all size (c ∷ cs) bt f (h, hs) s =
    let (bt1, run, s1) = Shows-run_call size c bt f h s in
    let (bt2, runs, s2) = Shows-run_all size cs bt1 (after_call c f) hs s1 in
    (bt2, ground (arith, run, runs), s2)

-- A bit map for the numbers up to `size` is the set of numbers that the calls make, as long as they
-- are on numbers up to `size`: none panics, and afterwards `isExist` answers exactly whether a number
-- was put in after the last time that it, or another number of its byte, was taken out.
pub run_all_refines :
    (size : ℕ) (cs : List Call)
    → All (λ c. number c ≤ size) cs
    → (bt : BitMap) × (run_all cs (new_bit_map size) ≡ returns bt)
      × ((m : ℕ) → m ≤ size → is_exist m bt ≡ returns (after_all cs (λ x. false) m))
run_all_refines size cs h =
    let (bt, run, shows) =
      Shows-run_all size cs (new_bit_map size) (λ x. false) h (Shows-new_bit_map size) in
    (bt, run, shows.1)
