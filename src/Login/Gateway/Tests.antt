-- ===== src/Login/Gateway/Tests.antt =====
-- Gateway lists on concrete inputs.
use greatestworks.Base.{
  In, List, String, String_discrete, [], ap, arith, differ, false, inl, inr, none, panics, refl,
  returns, some, ◌↔◌, ◌∷◌, ◌≡◌, ◌≢◌, ◌⊎◌,
}
use greatestworks.Base.Int.{pos, ℤ}
use greatestworks.Base.SyncMap.{Distinct, load}
use greatestworks.Login.Config.{EndPoint, ServiceEntry}
use greatestworks.Login.Gateway.{
  GateWay, clear_invalid, default_end_point, get_end_point, get_recommend, is_exist,
  new_gateway_list, remove_level, update, update_local_weight,
}
use greatestworks.Login.Gateway.Clear.{IsKeyed, load-clear_invalid}
use greatestworks.Login.Gateway.Fresh.{Call, clears, fresh_recommends_default, run, updates, weighs}
use greatestworks.Login.Gateway.Levels.{occurrences, occurrences-remove_level, update_drops}
use greatestworks.Login.Gateway.Lookup.{get_end_point_lem, update_local_weight_lem}

abbrev alpha : EndPoint
alpha = record {
  zone_id = pos 1;
  id = "a";
  ip = "10.0.0.1";
  port = pos 9000;
  name = "alpha";
  weights = pos 5;
  inner_ip = "";
}

abbrev beta : EndPoint
beta = record alpha { id = "b"; name = "beta"; weights = pos 200 }

-- Both gateways in their levels.
abbrev sorted_list : GateWay
sorted_list = record {
  endpoints = ("a", alpha) ∷ ("b", beta) ∷ [];
  zone_id = pos 1;
  levels = (pos 10, "a" ∷ []) ∷ (pos 300, "b" ∷ []) ∷ [];
}

abbrev registered : List ServiceEntry
registered = record { id = "b"; address = ""; port = pos 0; service = ""; tags = [] } ∷ []

recommend_first : get_recommend sorted_list 7 ≡ returns alpha
unfolding get_recommend String_discrete
recommend_first = refl

sorted_list-Distinct : Distinct sorted_list.levels
sorted_list-Distinct = ground arith

a_not_empty : ◌≢◌ {A = String} "a" ""
a_not_empty = differ "a" "" refl

occurrences-remove_level_example : occurrences "a" (remove_level sorted_list "a").levels ≡ 0
unfolding String_discrete
occurrences-remove_level_example =
    occurrences-remove_level sorted_list "a" "a" sorted_list-Distinct a_not_empty

update_drops_example :
    occurrences "a" (update sorted_list (record alpha { weights = pos 6 })).levels ≡ 0
unfolding String_discrete
update_drops_example =
    update_drops sorted_list (record alpha { weights = pos 6 }) sorted_list-Distinct a_not_empty
      (unfold String_discrete in omega arith) refl refl (λ v e. ground arith)

sorted_list-IsKeyed : IsKeyed sorted_list.endpoints
sorted_list-IsKeyed = (refl, a_not_empty, (refl, differ "b" "" refl, tt))

endpoints-Distinct : Distinct sorted_list.endpoints
endpoints-Distinct = ((λ h. elim h [ inl e ↦ differ "a" "b" refl e | inr b ↦ b ]), ((λ h. h), tt))

load-clear_invalid_example :
    (load String_discrete "b" (clear_invalid sorted_list registered).0.endpoints ≡ some beta)
    ↔ (load String_discrete "b" sorted_list.endpoints ≡ some beta)
      × ((beta.zone_id ≢ pos 1) ⊎ In {A = String} "b" ("b" ∷ []))
load-clear_invalid_example =
    load-clear_invalid sorted_list registered "b" beta sorted_list-IsKeyed endpoints-Distinct

abbrev busy_day : List Call
busy_day = updates alpha ∷ updates beta ∷ weighs (some alpha) (pos 3) ∷ clears registered ∷ []

fresh_recommends_default_example :
    (get_recommend (run (new_gateway_list (pos 1)) busy_day) 5 ≡ returns default_end_point)
    × (get_end_point (run (new_gateway_list (pos 1)) busy_day) "b" ≡ returns none)
    × (is_exist (run (new_gateway_list (pos 1)) busy_day) "b" ≡ returns (none, false))
fresh_recommends_default_example = fresh_recommends_default (pos 1) busy_day 5 "b"

get_end_point_lem_example :
    (get_end_point sorted_list "a" ≡ panics) × (is_exist sorted_list "a" ≡ panics)
unfolding String_discrete
get_end_point_lem_example = get_end_point_lem sorted_list "a"

update_local_weight_lem_example :
    (update_local_weight sorted_list (some alpha) (pos 0)).0.levels ≡ sorted_list.levels
unfolding String_discrete
update_local_weight_lem_example =
    ap (λ (r : GateWay × ℤ). r.0.levels)
      (update_local_weight_lem sorted_list alpha alpha (pos 0) refl refl)
