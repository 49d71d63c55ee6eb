-- ===== src/Login/Gateway.antt =====
-- server/login/gateway.go: the gateways of one zone, by id, and the ids sorted into load levels.
-- A method that changes `*GateWay` returns the new list; random numbers are arguments.
-- The map of end points holds pointers: a write through one is a store of the changed value.
pub mod Levels
pub mod Clear
pub mod Fresh
pub mod Lookup
mod Tests
use greatestworks.Base.{
  ℕ, ◌+◌, ◌%◌, ite, Bool, true, false, ◌&&◌, not, Option, none, some, List, [], ◌∷◌, ◌++◌, String,
  String_discrete, is_empty_str, if◌then◌else◌, ◌==◌, length, get_elem?, Outcome, returns, panics,
}
use greatestworks.Base.Int.{ℤ, pos, ltb_ℤ, ◌+ℤ◌, wrap_int, ℤ_discrete}
use greatestworks.Base.SyncMap.{SyncMap, load, store, delete}
use greatestworks.Login.Config.{EndPoint, ServiceEntry, level0, level1, level2, level3}

pub record GateWay : Type 0 where
  pub endpoints : SyncMap String EndPoint
  pub zone_id : ℤ
  pub levels : SyncMap ℤ (List String)

unfoldable pub new_gateway_list : ℤ → GateWay
new_gateway_list zone = record { endpoints = []; zone_id = zone; levels = [] }

abbrev pub contains : String → List String → Bool
contains id [] = false
contains id (s ∷ arr) = ite (String_discrete id s) true (contains id arr)

abbrev pub remove_first : String → List String → List String
remove_first id [] = []
remove_first id (s ∷ arr) = ite (String_discrete id s) arr (s ∷ remove_first id arr)

-- The `Range` of `removeLevel`: the level that it stores, and its new ids.
abbrev pub removed_level : String → SyncMap ℤ (List String) → Option (ℤ × List String)
removed_level id [] = none
removed_level id ((key, arr) ∷ m) =
    if contains id arr then some (key, remove_first id arr) else removed_level id m

abbrev pub stored : SyncMap ℤ (List String) → Option (ℤ × List String) → SyncMap ℤ (List String)
stored m none = m
stored m (some (key, arr)) = store ℤ_discrete key arr m

unfoldable pub remove_level : GateWay → String → GateWay
remove_level l id =
    if is_empty_str id then l else record l { levels = stored l.levels (removed_level id l.levels) }

-- The `Range` of `addLevel`: it appends to a level only where the id is there already.
abbrev pub added_level : String → ℤ → SyncMap ℤ (List String) → Option (ℤ × List String)
added_level id lv [] = none
added_level id lv ((key, arr) ∷ m) =
    let rest = added_level id lv m in
    ite (ℤ_discrete lv key) (if contains id arr then some (key, arr ++ id ∷ []) else rest) rest

unfoldable pub add_level : GateWay → String → ℤ → GateWay
add_level l id lv =
    if is_empty_str id
    then l
    else record l { levels = stored l.levels (added_level id lv l.levels) }

unfoldable pub remove_end_point : GateWay → String → GateWay
unfolding remove_level
remove_end_point l id =
    if is_empty_str id
    then l
    else (let l' = remove_level l id in
        record l' { endpoints = delete String_discrete id l'.endpoints })

-- The inner loop of `clearInvalid`.
abbrev pub is_registered : EndPoint → List ServiceEntry → Bool
is_registered e [] = false
is_registered e (s ∷ services) =
    if not (is_empty_str e.id) && ite (String_discrete e.id s.id) true false
    then true
    else is_registered e services

-- The `Range` of `clearInvalid`: the end points of the zone, and the ids of the invalid ones.
abbrev pub invalid : ℤ → List ServiceEntry → SyncMap String EndPoint → ℕ × List String
invalid zone services [] = (0, [])
invalid zone services ((key, e) ∷ m) =
    let (total, del) = invalid zone services m in
    ite (ℤ_discrete e.zone_id zone)
      (total + 1, if is_registered e services then del else e.id ∷ del) (total, del)

abbrev pub remove_all : GateWay → List String → GateWay
remove_all l [] = l
remove_all l (id ∷ del) = remove_all (remove_end_point l id) del

-- The new list, the zone and whether nothing of the zone was valid.
unfoldable pub clear_invalid : GateWay → List ServiceEntry → GateWay × ℤ × Bool
unfolding remove_end_point
clear_invalid l services =
    let (total, del) = invalid l.zone_id services l.endpoints in
    (remove_all l del, l.zone_id, length del == total)

-- The last part of `update`, for a weight that is new.
unfoldable pub place : GateWay → EndPoint → GateWay
unfolding remove_level add_level
place l ep =
    if ltb_ℤ ep.weights level0
    then add_level (remove_level l ep.id) ep.id level0
    else if ltb_ℤ ep.weights level1
    then add_level (remove_level l ep.id) ep.id level1
    else if ltb_ℤ ep.weights level2
    then add_level (remove_level l ep.id) ep.id level2
    else if ltb_ℤ ep.weights level3
    then add_level (remove_level l ep.id) ep.id level3
    else l

unfoldable pub update_known : GateWay → EndPoint → Option EndPoint → GateWay
unfolding place
update_known l ep none =
    place (record l { endpoints = store String_discrete ep.id ep l.endpoints }) ep
update_known l ep (some value) = ite (ℤ_discrete value.weights ep.weights) l (
    place
      (record l {
        endpoints = store String_discrete ep.id (record value { weights = ep.weights }) l.endpoints;
      })
      ep)

unfoldable pub update : GateWay → EndPoint → GateWay
unfolding update_known
update l ep =
    ite (ℤ_discrete ep.zone_id l.zone_id)
      (update_known l ep (load String_discrete ep.id l.endpoints)) l

abbrev pub default_end_point : EndPoint
default_end_point = record {
  zone_id = pos 0;
  id = "";
  ip = "127.0.0.1";
  port = pos 10001;
  name = "";
  weights = pos 0;
  inner_ip = "";
}

-- The `Range` of `GetRecommend`; `r % len(levelArr)` panics on an empty level.
abbrev pub recommended : ℕ → SyncMap String EndPoint → SyncMap ℤ (List String) → Outcome EndPoint
recommended r eps [] = returns default_end_point
recommended r eps ((key, arr) ∷ m) = elim (get_elem? arr (r % length arr)) [
  | none ↦ panics
  | some addr ↦ elim (load String_discrete addr eps) [
    | some e ↦ returns e
    | none ↦ recommended r eps m
  ]
]

unfoldable pub get_recommend : GateWay → ℕ → Outcome EndPoint
get_recommend l r = recommended r l.endpoints l.levels

-- The `Range` of `GetEndPoint` and `IsExist`. The closure's own `value` is a `[]string`, so
-- `value.(*config.EndPoint)` panics where the address is found.
abbrev pub searched : String → SyncMap ℤ (List String) → Outcome (Option EndPoint)
searched addr [] = returns none
searched addr ((key, arr) ∷ m) = if contains addr arr then panics else searched addr m

unfoldable pub get_end_point : GateWay → String → Outcome (Option EndPoint)
get_end_point l addr = elim (load String_discrete addr l.endpoints) [
  | none ↦ returns none
  | some value ↦ searched addr l.levels
]

unfoldable pub is_exist : GateWay → String → Outcome (Option EndPoint × Bool)
is_exist l addr = elim (load String_discrete addr l.endpoints) [
  | none ↦ returns (none, false)
  | some value ↦ elim (searched addr l.levels) [
    | returns ret ↦ returns (ret, false)
    | panics ↦ panics
  ]
]

-- `ratio` is the global `config.QueryToGateWayRatio`, which the method may reset to 1.
abbrev pub at_least_one : ℤ → ℤ
at_least_one ratio = if ltb_ℤ ratio (pos 1) then pos 1 else ratio

unfoldable pub update_local_weight : GateWay → Option EndPoint → ℤ → GateWay × ℤ
unfolding update wrap_int
update_local_weight l none ratio = (l, ratio)
update_local_weight l (some end_point) ratio =
    elim (load String_discrete end_point.id l.endpoints) [
      | none ↦ (l, ratio)
      | some value ↦
          (let heavier = record value {
            weights = wrap_int (value.weights +ℤ at_least_one ratio);
          } in
            (
              update
                  (record l { endpoints = store String_discrete end_point.id heavier l.endpoints })
                  heavier,
              at_least_one ratio,
            ))
    ]
