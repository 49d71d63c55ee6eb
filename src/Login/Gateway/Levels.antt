-- ===== src/Login/Gateway/Levels.antt =====
-- The load levels of a gateway list: what `removeLevel`, `addLevel` and `update` do to them.
use greatestworks.Base.{
  In, inl, inr, Option-cases, ℕ, ◌+◌, ◌-◌, ◌≤◌, ◌≡◌, refl, ite, true, false, none, some, Option,
  List, [], ◌∷◌, String, String_discrete, arith, suc, ◌≢◌,
}
use greatestworks.Base.Int.{ℤ, ltb_ℤ, ℤ_discrete}
use greatestworks.Base.SyncMap.{SyncMap, keys, Distinct, load, store}
use greatestworks.Login.Config.{EndPoint, level0, level1, level2, level3}
use greatestworks.Login.Gateway.{
  GateWay, contains, remove_first, removed_level, stored, added_level, remove_level, add_level,
  place, update, update_known,
}

-- How often an id stands in a level, and in all levels.
abbrev pub occurs : String → List String → ℕ
occurs id [] = 0
occurs id (s ∷ arr) = let rest = occurs id arr in ite (String_discrete id s) (suc rest) rest

abbrev pub occurrences : String → SyncMap ℤ (List String) → ℕ
occurrences id [] = 0
occurrences id ((key, arr) ∷ m) = occurs id arr + occurrences id m

absent : (id : String) (arr : List String) → contains id arr ≡ false → occurs id arr ≡ 0
absent id [] h = refl
absent id (s ∷ arr) h = ground (arith, absent id arr)

occurs-remove_first :
    (id j : String) (arr : List String)
    → contains id arr ≡ true
    → occurs j arr ≡ occurs j (remove_first id arr) + ite (String_discrete id j) 1 0
occurs-remove_first id j [] h = ground arith
occurs-remove_first id j (s ∷ arr) h = ground (arith, occurs-remove_first id j arr)

-- What a level gives up when an id is taken from all levels.
taken :
    (id j : String) (m : SyncMap ℤ (List String)) (key : ℤ) (arr : List String)
    → Distinct m
    → removed_level id m ≡ some (key, arr)
    → In key (keys m)
      × (occurrences j m
          ≡ occurrences j (store ℤ_discrete key arr m) + ite (String_discrete id j) 1 0)
taken id j [] key arr d e = absurd (cc)
taken id j ((k, a) ∷ m) key arr d e =
    ground (arith, taken id j m key arr d.1, occurs-remove_first id j a)

not_taken :
    (id : String) (m : SyncMap ℤ (List String)) → removed_level id m ≡ none → occurrences id m ≡ 0
not_taken id [] e = refl
not_taken id ((k, a) ∷ m) e = ground (arith, not_taken id m, absent id a)

occurrences-stored :
    (id j : String) (m : SyncMap ℤ (List String)) (o : Option (ℤ × List String))
    → Distinct m
    → removed_level id m ≡ o
    → occurrences j (stored m o) ≡ occurrences j m - ite (String_discrete id j) 1 0
occurrences-stored id j m none d e = ground (arith, not_taken id m e)
occurrences-stored id j m (some (key, arr)) d e = ground (arith, taken id j m key arr d e)

-- `removeLevel` takes one occurrence of a non-empty id out of the levels, if there is any, and
-- leaves every other id as often as it was.
pub occurrences-remove_level :
    (l : GateWay) (id j : String)
    → Distinct l.levels
    → id ≢ ""
    → occurrences j (remove_level l id).levels
      ≡ occurrences j l.levels - ite (String_discrete id j) 1 0
unfolding remove_level
occurrences-remove_level l id j d h =
    ground (arith, occurrences-stored id j l.levels (removed_level id l.levels) d refl)

present : (id : String) (arr : List String) → contains id arr ≡ true → 1 ≤ occurs id arr
present id [] h = absurd (cc)
present id (s ∷ arr) h = ground (arith, present id arr)

not_added :
    (id : String) (lv : ℤ) (m : SyncMap ℤ (List String))
    → occurrences id m ≡ 0
    → added_level id lv m ≡ none
not_added id lv [] h = refl
not_added id lv ((k, a) ∷ m) h = ground (arith, not_added id lv m, present id a)

-- `addLevel` leaves the levels alone where the id is in none: it never adds an id that is new.
pub add_level_absent :
    (l : GateWay) (id : String) (lv : ℤ) → occurrences id l.levels ≡ 0 → add_level l id lv ≡ l
unfolding add_level
add_level_absent l id lv h = ground (arith, not_added id lv l.levels)

pub place_drops :
    (l : GateWay) (ep : EndPoint)
    → Distinct l.levels
    → ep.id ≢ ""
    → occurrences ep.id l.levels ≤ 1
    → ltb_ℤ ep.weights level3 ≡ true
    → occurrences ep.id (place l ep).levels ≡ 0
unfolding place
place_drops l ep d h o w = ground (
  arith,
  occurrences-remove_level l ep.id ep.id d h,
  add_level_absent (remove_level l ep.id) ep.id level0,
  add_level_absent (remove_level l ep.id) ep.id level1,
  add_level_absent (remove_level l ep.id) ep.id level2,
  add_level_absent (remove_level l ep.id) ep.id level3,
)

-- A gateway that `update` has to sort anew, because it is new or its weight changed, ends in no
-- level, if its weight is below the last level and its id stood in one level at most: `removeLevel`
-- takes the id out, and `addLevel` puts only ids back that it still finds.
pub update_drops :
    (l : GateWay) (ep : EndPoint)
    → Distinct l.levels
    → ep.id ≢ ""
    → occurrences ep.id l.levels ≤ 1
    → ltb_ℤ ep.weights level3 ≡ true
    → ep.zone_id ≡ l.zone_id
    → ((v : EndPoint) → load String_discrete ep.id l.endpoints ≡ some v → v.weights ≢ ep.weights)
    → occurrences ep.id (update l ep).levels ≡ 0
unfolding update update_known
update_drops l ep d h o w z new = elim (Option-cases (load String_discrete ep.id l.endpoints)) [
  | inl e ↦ ground (
    arith,
    place_drops (record l { endpoints = store String_discrete ep.id ep l.endpoints }) ep d h o w,
  )
  | inr (v, e) ↦ ground (
    arith,
    new v e,
    place_drops
        (record l {
          endpoints = store String_discrete ep.id (record v { weights = ep.weights }) l.endpoints;
        })
        ep d h o w,
  )
]
