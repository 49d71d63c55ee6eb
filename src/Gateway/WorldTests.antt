-- ===== src/Gateway/WorldTests.antt =====
-- The worlds of a gateway on concrete inputs.
use greatestworks.Base.{
  In, String, String_discrete, [], arith, differ, false, length, none, refl, some, true, ℕ, ◌↔◌,
  ◌∷◌, ◌≡◌, ◌≢◌,
}
use greatestworks.Base.Float32.{thousandths}
use greatestworks.Base.Int.{ltb_ℤ, pos, ℤ, ℤ_discrete}
use greatestworks.Base.SyncMap.{load}
use greatestworks.Gateway.Choice.{IsAnswer, get_optimal_online_lem}
use greatestworks.Gateway.Clients.{send_client_online_msg, send_msg_to_world_server}
use greatestworks.Gateway.Entry.{join_safe}
use greatestworks.Gateway.Handlers.{JoinRequest}
use greatestworks.Gateway.Handover.{add_session_loses}
use greatestworks.Gateway.Listing.{IsOrdered, get_session_list_lem}
use greatestworks.Gateway.Network.{accounts, wires}
use greatestworks.Gateway.Requests.{enter_world, is_let_in, join_online_handler}
use greatestworks.Gateway.Samples.{blank_world, newcomer, open_wire, test_env, town}
use greatestworks.Gateway.State.{State, WorldSession}
use greatestworks.Gateway.Worlds.{add_session, get_optimal_online, get_session_list, on_world_close}

abbrev verified_town : State wires accounts
verified_town = record town {
  sessions = λ c. record newcomer { tcp = record open_wire { is_verified = true }; user_id = 8 };
}

abbrev join_one : JoinRequest
join_one = record { sid = "w1"; zone_id = pos 1; quick = false; version = "1.0" }

abbrev joined : State wires accounts
joined = join_online_handler thousandths 3 test_env "8" "10.1.1.2" join_one 2 verified_town

joins_one : (joined.sessions 2).join_world_server_id ≢ ""
unfolding join_online_handler enter_world send_client_online_msg send_msg_to_world_server
    String_discrete ℤ_discrete
joins_one = differ "w1" "" refl

join_safe_example :
    (wires.verified (verified_town.sessions 2).tcp ≡ true)
    × (is_let_in test_env "8" "10.1.1.2" ≡ true)
    × (◌≡◌ {A = ℤ} (pos 1) (pos 1))
    × (◌≡◌ {A = String} "" "")
    × ((w : ℕ) × (load String_discrete "w1" verified_town.endpoints ≡ some w)
        × (ltb_ℤ (verified_town.worlds w).players (verified_town.worlds w).max_player ≡ true)
        × ((joined.sessions 2).join_world_server_id ≡ (verified_town.worlds w).session_id))
join_safe_example =
    join_safe thousandths 3 test_env "8" "10.1.1.2" join_one 2 verified_town joins_one

get_optimal_online_lem_example :
    IsAnswer thousandths (get_session_list town) (get_optimal_online thousandths 3 town)
get_optimal_online_lem_example = get_optimal_online_lem thousandths 3 town

get_session_list_lem_example :
    IsOrdered (get_session_list town)
    × (length (get_session_list town) ≡ 1)
    × ((w : WorldSession wires) → (In w (get_session_list town) ↔ In w (blank_world ∷ [])))
get_session_list_lem_example = get_session_list_lem town

add_session_loses_example :
    let t : State wires accounts = add_session "w1" "10.0.0.6" [] 5 1 (pos 1) town in
    let t' = on_world_close 0 t in
    ((t.worlds 0).tcp ≡ wires.close (town.worlds 0).tcp)
    × ((t.worlds 5).tcp ≡ (town.worlds 5).tcp)
    × (load String_discrete "w1" t.endpoints ≡ some 5)
    × (load String_discrete "w1" t'.endpoints ≡ none)
    × ((t'.worlds 5).tcp ≡ (town.worlds 5).tcp)
add_session_loses_example =
    add_session_loses "w1" "10.0.0.6" [] 0 5 1 (pos 1) town (differ "w1" "" refl)
      (unfold String_discrete in refl) refl (omega arith)
