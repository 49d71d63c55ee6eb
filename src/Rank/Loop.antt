-- ===== src/Rank/Loop.antt =====
-- The loop of refresh ends, and never leaves the slots: internal/gameplay/rank/cache.go.
use greatestworks.Base.{
  List, ap, arith, dec_le, dec_lt, length, refl, returns, some, suc, zero, ℕ, ◌*◌, ◌+◌, ◌/◌, ◌<◌,
  ◌^◌, ◌∙◌, ◌≡◌,
}
use greatestworks.Base.Int.{pos, wrap_int, wrap_int-add, ℤ, ◌+ℤ◌}
use greatestworks.Rank.{Cache, Kv, refresh, refresh_loop, set_cache_data}
use greatestworks.Rank.Refresh.{IsCache, set_cache_data_fits, set_cache_data_over}

-- The loop ends with the fuel, without a panic, in a cache with as many slots.
abbrev Ends : ℕ → ℕ → List Kv → Cache → Type 0
Ends fuel s new c =
    (c' : Cache) × (end : ℤ) × (refresh_loop fuel (pos s) (pos (s + 499)) new c
      ≡ some (returns (c', end)))
    × IsCache c'
    × (length c'.rank_data ≡ length c.rank_data)

stored :
    (s : ℕ) (new : List Kv) (c : Cache)
    → IsCache c
    → 0 < length new
    → (c' : Cache) × (set_cache_data (pos s) (pos (s + length new)) new c ≡ returns c')
      × IsCache c'
      × (length c'.rank_data ≡ length c.rank_data)
stored s new c w h = elim (dec_le (s + length new) (length c.rank_data)) [
  | yes k ↦ let (c', st) = set_cache_data_fits s new c w h k in (c', st.run, st.well, st.same)
  | no k ↦ (c, set_cache_data_over s new c w (omega arith), w, refl)
]

loop_step :
    (fuel s : ℕ) (new : List Kv) (c c' : Cache)
    → IsCache c
    → 0 < length new
    → s + 499 < length c.rank_data
    → length new < 2 ^ 62
    → set_cache_data (pos s) (pos (s + length new)) new c ≡ returns c'
    → IsCache c'
    → length c'.rank_data ≡ length c.rank_data
    → Ends fuel (s + 500) new c'
    → Ends (suc fuel) s new c
unfolding refresh_loop
loop_step fuel s new c c' w h k n run well same (c'', end, rest, well', same') =
    let a : wrap_int (pos s +ℤ pos (length new)) ≡ pos (s + length new) =
      wrap_int-add s (length new) (omega (arith, w.bound)) in
    let b : wrap_int (pos s +ℤ pos 500) ≡ pos (s + 500) =
      wrap_int-add s 500 (omega (arith, w.bound)) in
    let d : wrap_int (pos (s + 499) +ℤ pos 500) ≡ pos (s + 500 + 499) =
      wrap_int-add (s + 499) 500 (omega (arith, w.bound)) ∙ ap pos (omega arith) in
    elim (dec_lt (length new) 500) [
      | yes l ↦ (c', pos (s + length new), ground (arith, a, run, l, w.slots), well, same)
      | no l ↦ (c'', end, ground (arith, a, b, d, run, rest, l, w.slots), well', same' ∙ same)
    ]

refresh_loop-Ends :
    (fuel s : ℕ) (new : List Kv) (c : Cache)
    → IsCache c
    → length new < 2 ^ 62
    → length c.rank_data < s + 500 * suc fuel
    → Ends (suc fuel) s new c
unfolding refresh_loop
refresh_loop-Ends zero s new c w n h = (c, pos (s + 499), rw w.slots (ground arith), w, refl)
refresh_loop-Ends (suc fuel) s new c w n h = elim (dec_lt (s + 499) (length c.rank_data)) [
  | no k ↦ (c, pos (s + 499), rw w.slots (ground (arith, k)), w, refl)
  | yes k ↦ elim (dec_lt 0 (length new)) [
    | no l ↦ (c, pos 0, rw w.slots (ground (arith, k, l)), w, refl)
    | yes l ↦
        let (c', run, well, same) = stored s new c w l in
        loop_step (suc fuel) s new c c' w l k n run well same
          (refresh_loop-Ends fuel (s + 500) new c' well n (omega (arith, h, same)))
  ]
]

-- A refresh ends, within the number of rounds that `refresh` allows, and without a panic, for any
-- data: the cache keeps its slots. Slices are assumed shorter than 2 ^ 62.
pub refresh-returns :
    (new : List Kv) (c : Cache)
    → IsCache c
    → length new < 2 ^ 62
    → (c' : Cache) × (refresh new c ≡ some (returns c'))
      × IsCache c'
      × (length c'.rank_data ≡ length c.rank_data)
unfolding refresh
refresh-returns new c w n =
    let (c', end, run, well, same) =
      refresh_loop-Ends (length c.rank_data / 500) 0 new c w n (omega arith) in
    (
      record c' { last_data_index = end },
      ground (arith, run, w.slots),
      record { slots = well.slots; bound = well.bound },
      same,
    )
