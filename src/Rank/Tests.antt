-- ===== src/Rank/Tests.antt =====
-- Tests of the cache of a ranking, and its theorems at concrete caches.
use greatestworks.Base.{
  List, [], ap, arith, length, length-replicate, none, panics, refl, replicate, returns, some, sym,
  ℕ, ◌*◌, ◌<◌, ◌^◌, ◌∷◌, ◌≡◌,
}
use greatestworks.Base.Int.{pos, wrap, wrap_int, ◌+ℤ◌, ◌-ℤ◌}
use greatestworks.Rank.{
  Cache, Kv, black_listed, collect, copy, get_rank, new_cache_rank, refresh, refresh_loop,
  set_cache_data, zero_kv,
}
use greatestworks.Rank.Lookup.{get_rank-refresh, refresh_small}
use greatestworks.Rank.Loop.{refresh-returns}
use greatestworks.Rank.Refresh.{IsCache}

abbrev fresh : ℕ → Cache
fresh m = record {
  size = pos m;
  last_data_index = pos 0;
  rank_id = 1;
  sort_type = 0;
  rank_data = replicate m zero_kv;
}

abbrev entry : ℕ → Kv
entry n = record { player_id = n; score = pos (10 * n); set_tm = pos 0 }

abbrev three : List Kv
three = entry 7 ∷ entry 8 ∷ entry 9 ∷ []

fresh-IsCache : (m : ℕ) → m < 2 ^ 62 → IsCache (fresh m)
fresh-IsCache m h = record {
  slots = ap pos (sym (length-replicate m zero_kv));
  bound = omega (arith, h, length-replicate m zero_kv);
}

new_cache_rank_runs : new_cache_rank 1 (pos 3) 0 ≡ returns (fresh 3)
unfolding new_cache_rank
new_cache_rank_runs = refl

-- The black list does not hide player 8.
refresh_runs :
    elim (refresh three (fresh 500)) [
      | none ↦ panics
      | some panics ↦ panics
      | some (returns c) ↦ get_rank (pos 0) (pos 2) (8 ∷ []) c
    ]
    ≡ returns (some three)
unfolding refresh refresh_loop set_cache_data copy get_rank collect black_listed wrap_int wrap ◌+ℤ◌
    ◌-ℤ◌
refresh_runs = refl

refresh-returns_example :
    (c' : Cache) × (refresh three (fresh 500) ≡ some (returns c'))
    × IsCache c'
    × (length c'.rank_data ≡ length (fresh 500).rank_data)
refresh-returns_example =
    refresh-returns three (fresh 500) (fresh-IsCache 500 (omega arith)) (omega arith)

get_rank-refresh_example :
    (c' : Cache) × (refresh three (fresh 500) ≡ some (returns c'))
    × (get_rank (pos 1) (pos 2) (8 ∷ []) c' ≡ returns (some (entry 8 ∷ entry 9 ∷ [])))
get_rank-refresh_example =
    get_rank-refresh 1 2 (8 ∷ []) three zero_kv (fresh 500) (fresh-IsCache 500 (omega arith))
      (omega arith) (omega arith) (omega arith) refl

refresh_small_example :
    refresh three (fresh 100) ≡ some (returns (record (fresh 100) { last_data_index = pos 499 }))
refresh_small_example =
    refresh_small three (fresh 100) (fresh-IsCache 100 (omega arith)) (omega arith)
