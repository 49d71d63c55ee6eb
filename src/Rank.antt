-- ===== src/Rank.antt =====
-- The cache of a ranking: internal/gameplay/rank/cache.go.
pub mod Refresh
pub mod Loop
pub mod Lookup
mod Tests
use greatestworks.Base.{
  List, Option, Outcome, [], false, get_elem?, if◌then◌else◌, leb, length, ltb, none, panics,
  replicate, returns, set, some, suc, true, zero, ℕ, ◌/◌, ◌==◌, ◌||◌, ◌∷◌,
}
use greatestworks.Base.Int.{leb_ℤ, ltb_ℤ, pos, pos_part, wrap_int, ℤ, ◌+ℤ◌, ◌-ℤ◌}
use greatestworks.Login.Gateway.Clear.{ids}

pub record Kv : Type 0 where
  pub player_id : ℕ
  pub score : ℤ
  pub set_tm : ℤ

pub record Cache : Type 0 where
  pub size : ℤ
  pub last_data_index : ℤ
  pub rank_id : ℕ
  pub sort_type : ℕ
  pub rank_data : List Kv

abbrev pub zero_kv : Kv
zero_kv = record { player_id = 0; score = pos 0; set_tm = pos 0 }

-- `make` panics on a negative length.
unfoldable pub new_cache_rank : ℕ → ℤ → ℕ → Outcome Cache
new_cache_rank rank_id size sort_type =
    if ltb_ℤ size (pos 0)
    then panics
    else returns (record {
      size = size;
      last_data_index = pos 0;
      rank_id = rank_id;
      sort_type = sort_type;
      rank_data = replicate (pos_part size) zero_kv;
    })

-- The inner loop over the black list: its `continue` goes on with the same loop.
unfoldable pub black_listed : Kv → List ℕ → Kv
black_listed kv [] = kv
black_listed kv (id ∷ ids) =
    let rest = black_listed kv ids in if kv.player_id == id then rest else rest

-- The loop of getRank over the indices from `idx`, for the rounds that are left.
unfoldable pub collect : ℕ → ℕ → List Kv → List ℕ → Outcome (List Kv)
collect zero idx rank_data black = returns []
collect (suc rounds) idx rank_data black = elim (get_elem? rank_data idx) [
  | none ↦ panics
  | some kv ↦ elim (collect rounds (suc idx) rank_data black) [
    | panics ↦ panics
    | returns kvs ↦ returns (black_listed kv black ∷ kvs)
  ]
]

-- `none` is the answer `nil, false`. The loop ends with `end`, so it has one round more than
-- getLen, which is a capacity only.
unfoldable pub get_rank : ℤ → ℤ → List ℕ → Cache → Outcome (Option (List Kv))
get_rank begin end black c =
    let last = if ltb_ℤ c.last_data_index end then c.last_data_index else end in
    let get_len = wrap_int (last -ℤ begin) in
    if ltb_ℤ begin (pos 0) || leb_ℤ get_len (pos 0) || leb_ℤ c.size last
    then returns none
    else elim (collect (suc (pos_part get_len)) (pos_part begin) c.rank_data black) [
      | panics ↦ panics
      | returns kvs ↦ returns (some kvs)
    ]

-- The loop of setCacheData: entry `k` of the new data goes to index `idx`.
unfoldable pub copy : ℕ → List Kv → ℕ → ℕ → List Kv → Outcome (List Kv)
copy zero new k idx rank_data = returns rank_data
copy (suc rounds) new k idx rank_data = elim (get_elem? new k) [
  | none ↦ panics
  | some kv ↦ elim (get_elem? rank_data idx) [
    | none ↦ panics
    | some old ↦ copy rounds new (suc k) (suc idx) (set rank_data idx kv)
  ]
]

unfoldable pub set_cache_data : ℤ → ℤ → List Kv → Cache → Outcome Cache
set_cache_data begin end new c =
    let get_len = wrap_int (end -ℤ begin) in
    if ltb_ℤ begin (pos 0) || leb_ℤ get_len (pos 0) || ltb_ℤ c.size end
    then returns c
    else elim (copy (pos_part get_len) new 0 (pos_part begin) c.rank_data) [
      | panics ↦ panics
      | returns rank_data ↦ returns (record c { rank_data = rank_data })
    ]

-- The loop of refresh, with the last value of curEndIndex. `none` means that the fuel ran out.
unfoldable pub refresh_loop : ℕ → ℤ → ℤ → List Kv → Cache → Option (Outcome (Cache × ℤ))
refresh_loop zero start end kv_data c = none
refresh_loop (suc fuel) start end kv_data c = elim (ltb_ℤ end c.size) [
  | false ↦ some (returns (c, end))
  | true ↦ elim (leb (length kv_data) 0) [
    | true ↦ some (returns (c, pos 0))
    | false ↦ elim (set_cache_data start (wrap_int (start +ℤ pos (length kv_data))) kv_data c) [
      | panics ↦ some panics
      | returns c' ↦ elim (ltb (length kv_data) 500) [
        | true ↦ some (returns (c', wrap_int (start +ℤ pos (length kv_data))))
        | false ↦
            refresh_loop fuel (wrap_int (start +ℤ pos 500)) (wrap_int (end +ℤ pos 500)) kv_data c'
      ]
    ]
  ]
]

abbrev pub with_last : Option (Outcome (Cache × ℤ)) → Option (Outcome Cache)
with_last none = none
with_last (some panics) = some panics
with_last (some (returns (c, end))) = some (returns (record c { last_data_index = end }))

-- A round moves the start by 500, so `size / 500 + 1` rounds are enough.
unfoldable pub refresh : List Kv → Cache → Option (Outcome Cache)
refresh kv_data c =
    with_last (refresh_loop (suc (pos_part c.size / 500)) (pos 0) (pos 499) kv_data c)
