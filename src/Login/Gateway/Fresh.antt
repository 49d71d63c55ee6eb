-- ===== src/Login/Gateway/Fresh.antt =====
-- What the methods of a gateway list do to a list that started out empty.
use greatestworks.Base.{
  ℕ, ◌≡◌, refl, false, none, some, Option, List, [], ◌∷◌, String, String_discrete, arith, returns,
  inl, inr, Option-cases,
}
use greatestworks.Base.Int.{ℤ, ◌+ℤ◌, wrap_int}
use greatestworks.Base.SyncMap.{load, store}
use greatestworks.Login.Config.{EndPoint, ServiceEntry}
use greatestworks.Login.Gateway.{
  GateWay, new_gateway_list, remove_level, add_level, remove_end_point, remove_all, clear_invalid,
  place, update_known, update, update_local_weight, get_recommend, get_end_point, is_exist,
  default_end_point, invalid, at_least_one,
}

-- The calls that change a gateway list.
pub data Call : Type 0 where
  updates : EndPoint → Call
  weighs : Option EndPoint → ℤ → Call
  clears : List ServiceEntry → Call
  removes : String → Call

unfoldable pub step : GateWay → Call → GateWay
step l (updates ep) = update l ep
step l (weighs ep ratio) = (update_local_weight l ep ratio).0
step l (clears services) = (clear_invalid l services).0
step l (removes id) = remove_end_point l id

unfoldable pub run : GateWay → List Call → GateWay
run l [] = l
run l (c ∷ cs) = run (step l c) cs

place-levels : (l : GateWay) (ep : EndPoint) → l.levels ≡ [] → (place l ep).levels ≡ []
unfolding place remove_level add_level
place-levels l ep h = ground arith

update-levels : (l : GateWay) (ep : EndPoint) → l.levels ≡ [] → (update l ep).levels ≡ []
unfolding update update_known
update-levels l ep h = elim (Option-cases (load String_discrete ep.id l.endpoints)) [
  | inl e ↦ ground (
    arith,
    place-levels (record l { endpoints = store String_discrete ep.id ep l.endpoints }) ep h,
  )
  | inr (v, e) ↦ ground (
    arith,
    place-levels
        (record l {
          endpoints = store String_discrete ep.id (record v { weights = ep.weights }) l.endpoints;
        })
        ep h,
  )
]

remove_end_point-levels :
    (l : GateWay) (id : String) → l.levels ≡ [] → (remove_end_point l id).levels ≡ []
unfolding remove_end_point remove_level
remove_end_point-levels l id h = ground arith

remove_all-levels :
    (l : GateWay) (del : List String) → l.levels ≡ [] → (remove_all l del).levels ≡ []
remove_all-levels l [] h = h
remove_all-levels l (id ∷ del) h =
    remove_all-levels (remove_end_point l id) del (remove_end_point-levels l id h)

update_local_weight-levels :
    (l : GateWay) (ep : Option EndPoint) (ratio : ℤ)
    → l.levels ≡ []
    → (update_local_weight l ep ratio).0.levels ≡ []
unfolding update_local_weight
update_local_weight-levels l none ratio h = h
update_local_weight-levels l (some e) ratio h =
    elim (Option-cases (load String_discrete e.id l.endpoints)) [
      | inl p ↦ ground arith
      | inr (v, p) ↦
          let heavier = record v { weights = wrap_int (v.weights +ℤ at_least_one ratio) } in
          ground (
            arith,
            update-levels (record l { endpoints = store String_discrete e.id heavier l.endpoints })
                heavier h,
          )
    ]

step-levels : (l : GateWay) (c : Call) → l.levels ≡ [] → (step l c).levels ≡ []
unfolding step clear_invalid
step-levels l (updates ep) h = update-levels l ep h
step-levels l (weighs ep ratio) h = update_local_weight-levels l ep ratio h
step-levels l (clears services) h = remove_all-levels l (invalid l.zone_id services l.endpoints).1 h
step-levels l (removes id) h = remove_end_point-levels l id h

run-levels : (l : GateWay) (cs : List Call) → l.levels ≡ [] → (run l cs).levels ≡ []
unfolding run
run-levels l [] h = h
run-levels l (c ∷ cs) h = run-levels (step l c) cs (step-levels l c h)

-- From a new gateway list, no sequence of calls ever fills a level.
pub fresh-levels : (zone : ℤ) (cs : List Call) → (run (new_gateway_list zone) cs).levels ≡ []
unfolding new_gateway_list
fresh-levels zone cs = run-levels (new_gateway_list zone) cs refl

-- So a list that was made by `NewGatewayList` recommends the built-in address 127.0.0.1:10001
-- whatever gateways were added, and finds no gateway by its address.
pub fresh_recommends_default :
    (zone : ℤ) (cs : List Call) (r : ℕ) (addr : String)
    → (get_recommend (run (new_gateway_list zone) cs) r ≡ returns default_end_point)
      × (get_end_point (run (new_gateway_list zone) cs) addr ≡ returns none)
      × (is_exist (run (new_gateway_list zone) cs) addr ≡ returns (none, false))
unfolding get_recommend get_end_point is_exist
fresh_recommends_default zone cs r addr = ground (arith, fresh-levels zone cs)
