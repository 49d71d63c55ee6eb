-- ===== src/Rank/Lookup.antt =====
-- What getRank answers after a refresh: internal/gameplay/rank/cache.go.
use Prim.Native.Nat.{min}
use greatestworks.Base.{
  List, [], ap, arith, dec_lt, drop, drop-get_elem?, get_elem?, get_elem?-append, get_elem?_lem,
  length, length-append, refl, returns, some, suc, take, zero, ℕ, ◌++◌, ◌+◌, ◌-◌, ◌<◌, ◌∙◌, ◌∷◌,
  ◌≡◌, ◌≤◌,
}
use greatestworks.Base.Int.{pos, wrap_int, wrap_int-add, wrap_int-sub, ◌+ℤ◌, ◌-ℤ◌}
use greatestworks.Rank.{Cache, Kv, black_listed, collect, get_rank, refresh, refresh_loop}
use greatestworks.Rank.Refresh.{IsCache, copied, set_cache_data_fits}

black_listed_lem : (kv : Kv) (black : List ℕ) → black_listed kv black ≡ kv
unfolding black_listed
black_listed_lem kv [] = refl
black_listed_lem kv (id ∷ ids) = ground (arith, black_listed_lem kv ids)

-- The loop reads the slots of `old`, which are those of `view` where it reads them.
collect_lem :
    (rounds idx : ℕ) (old view : List Kv) (black : List ℕ)
    → ((j : ℕ) → j < idx + rounds → get_elem? old j ≡ get_elem? view j)
    → idx + rounds ≤ length view
    → collect rounds idx old black ≡ returns (take rounds (drop idx view))
unfolding collect
collect_lem zero idx old view black at h = refl
collect_lem (suc rounds) idx old view black at h =
    let (kv, e, m) = get_elem?_lem view idx (omega (arith, h)) in
    ground (
      arith,
      at idx (omega arith),
      e,
      black_listed_lem kv black,
      drop-get_elem? idx view e,
      collect_lem rounds (suc idx) old view black (λ j l. at j (omega (arith, l)))
          (omega (arith, h)),
    )

get_rank_lem :
    (b e n : ℕ) (black : List ℕ) (c : Cache) (view : List Kv)
    → IsCache c
    → c.last_data_index ≡ pos n
    → n < length c.rank_data
    → length view ≡ suc n
    → b < min e n
    → ((j : ℕ) → j < suc n → get_elem? c.rank_data j ≡ get_elem? view j)
    → get_rank (pos b) (pos e) black c ≡ returns (some (take (suc (min e n - b)) (drop b view)))
unfolding get_rank
get_rank_lem b e n black c view w l k v lt at =
    let run : collect (suc (min e n - b)) b c.rank_data black
        ≡ returns (take (suc (min e n - b)) (drop b view)) =
      collect_lem (suc (min e n - b)) b c.rank_data view black (λ j p. at j (omega (arith, p, lt)))
        (omega (arith, v, lt)) in
    let len : wrap_int (pos (min e n) -ℤ pos b) ≡ pos (min e n - b) =
      wrap_int-sub (min e n) b (omega (arith, lt)) (omega (arith, w.bound, k)) in
    elim (dec_lt n e) [
      | yes p ↦
          let m : min e n ≡ n = omega arith in
          ground (arith, rw m at run, rw m at len, l, w.slots, k, lt, m)
      | no p ↦
          let m : min e n ≡ e = omega arith in
          ground (arith, rw m at run, rw m at len, l, w.slots, k, lt, m)
    ]

-- A refresh with fewer than 500 entries stores them from slot 0 on.
refresh_short :
    (new : List Kv) (c : Cache)
    → IsCache c
    → 499 < length c.rank_data
    → 0 < length new
    → length new < 500
    → (c' : Cache) × (refresh new c ≡ some (returns c'))
      × IsCache c'
      × (length c'.rank_data ≡ length c.rank_data)
      × (c'.last_data_index ≡ pos (length new))
      × ((j : ℕ) → get_elem? c'.rank_data j ≡ copied (length new) new 0 0 c.rank_data j)
unfolding refresh refresh_loop
refresh_short new c w h k l =
    let (c', st) = set_cache_data_fits 0 new c w k (omega (arith, h, l)) in
    let a : wrap_int (pos 0 +ℤ pos (length new)) ≡ pos (length new) =
      wrap_int-add 0 (length new) (omega (arith, l)) ∙ ap pos (omega arith) in
    let z : 0 + length new ≡ length new = omega arith in
    (
      record c' { last_data_index = pos (length new) },
      ground (arith, a, z, rw z at st.run, w.slots, h, k, l),
      record { slots = st.well.slots; bound = st.well.bound },
      st.same,
      refl,
      st.at,
    )

-- After a refresh with n entries, 0 < n < 500, of a cache with more than 499 slots, getRank from b
-- to e, for b below both e and n, answers the entries b to e of the new data, whatever the black
-- list; where e is n or more it answers those from b on, and one entry too many at the end, which
-- the slot n held before the refresh.
pub get_rank-refresh :
    (b e : ℕ) (black : List ℕ) (new : List Kv) (stale : Kv) (c : Cache)
    → IsCache c
    → 499 < length c.rank_data
    → length new < 500
    → b < min e (length new)
    → get_elem? c.rank_data (length new) ≡ some stale
    → (c' : Cache) × (refresh new c ≡ some (returns c'))
      × (get_rank (pos b) (pos e) black c'
          ≡ returns (some (take (suc (min e (length new) - b)) (drop b (new ++ stale ∷ [])))))
get_rank-refresh b e black new stale c w h l lt s =
    let (c', run, well, same, last, at) = refresh_short new c w h (omega (arith, lt)) l in
    (
      c',
      run,
      get_rank_lem b e (length new) black c' (new ++ stale ∷ []) well last
          (omega (arith, h, l, same)) (length-append new (stale ∷ []) ∙ omega arith) lt
          λ j p.
            let shift : 0 + (j - 0) ≡ j = omega arith in
            let here : ¬ (j < length new) → j ≡ length new = λ q. omega (arith, p) in
            let none_left : ¬ (j < length new) → j - length new ≡ 0 = λ q. omega (arith, p) in
            ground (
              arith,
              at j,
              get_elem?-append new (stale ∷ []) j,
              ap (get_elem? new) shift,
              s,
              p,
              λ (q : ¬ (j < length new)). ap (get_elem? c.rank_data) (here q),
              λ (q : ¬ (j < length new)). ap (get_elem? (stale ∷ [])) (none_left q),
            ),
    )

-- A cache with at most 499 slots is never filled: a refresh stores nothing, and leaves an index
-- behind its last slot.
pub refresh_small :
    (new : List Kv) (c : Cache)
    → IsCache c
    → length c.rank_data ≤ 499
    → refresh new c ≡ some (returns (record c { last_data_index = pos 499 }))
unfolding refresh refresh_loop
refresh_small new c w h = ground (arith, w.slots)
