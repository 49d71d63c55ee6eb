-- ===== src/Login/Gateway/Lookup.antt =====
-- `GetEndPoint`, `IsExist`, `GetRecommend` and `UpdateLocalWeight`: what they find, and what they
-- leave alone.
use greatestworks.Base.{
  Bool, List, Option, String, String_discrete, [], arith, false, if◌then◌else◌, ltb, none, panics,
  refl, returns, some, true, ◌&&◌, ◌∷◌, ◌≡◌,
}
use greatestworks.Base.Int.{wrap_int, ℤ, ◌+ℤ◌}
use greatestworks.Base.SyncMap.{SyncMap, load, load-store, store}
use greatestworks.Login.Config.{EndPoint}
use greatestworks.Login.Gateway.{
  GateWay, at_least_one, contains, get_end_point, is_exist, searched, update, update_known,
  update_local_weight,
}
use greatestworks.Login.Gateway.Levels.{occurrences, occurs}

abbrev is_some {ℓ} : {A : Type ℓ} → Option A → Bool
is_some none = false
is_some (some a) = true

-- The address is a known gateway's id, and stands in a level.
abbrev pub is_listed : GateWay → String → Bool
is_listed l addr =
    is_some (load String_discrete addr l.endpoints) && ltb 0 (occurrences addr l.levels)

occurs_iff : (id : String) (arr : List String) → contains id arr ≡ ltb 0 (occurs id arr)
occurs_iff id [] = refl
occurs_iff id (s ∷ arr) = ground (arith, occurs_iff id arr)

searched_lem :
    (addr : String) (m : SyncMap ℤ (List String))
    → searched addr m ≡ (if ltb 0 (occurrences addr m) then panics else returns none)
searched_lem addr [] = refl
searched_lem addr ((key, arr) ∷ m) = ground (arith, searched_lem addr m, occurs_iff addr arr)

-- `GetEndPoint` and `IsExist` panic for exactly the gateways that are known and stand in a level,
-- and find nothing otherwise: neither ever hands out a gateway.
pub get_end_point_lem :
    (l : GateWay) (addr : String)
    → (get_end_point l addr ≡ (if is_listed l addr then panics else returns none))
      × (is_exist l addr ≡ (if is_listed l addr then panics else returns (none, false)))
unfolding get_end_point is_exist
get_end_point_lem l addr = ground (arith, searched_lem addr l.levels)

-- `UpdateLocalWeight` adds the ratio, at least 1, to the weight of a gateway that stands under its
-- own id, and changes nothing else: the pointer that it hands to `update` is the stored one, so no
-- weight looks new there, and the gateway stays in its level.
pub update_local_weight_lem :
    (l : GateWay) (ep v : EndPoint) (ratio : ℤ)
    → load String_discrete ep.id l.endpoints ≡ some v
    → v.id ≡ ep.id
    → update_local_weight l (some ep) ratio ≡ (
      record l {
        endpoints =
            store String_discrete ep.id
              (record v { weights = wrap_int (v.weights +ℤ at_least_one ratio) })
              l.endpoints;
      },
      at_least_one ratio,
    )
unfolding update_local_weight update update_known
update_local_weight_lem l ep v ratio h k = ground (
  arith,
  load-store String_discrete ep.id ep.id
      (record v { weights = wrap_int (v.weights +ℤ at_least_one ratio) }) l.endpoints,
)
