-- ===== src/Gateway/Tests.antt =====
-- The clients of a gateway on concrete inputs.
use greatestworks.Base.{
  List, String_discrete, [], arith, false, none, refl, some, true, ℕ, ℕ_discrete, ◌∷◌, ◌≡◌, ◌≢◌,
}
use greatestworks.Base.Int.{ltb_ℤ, pos, wrap_int32, ℤ_discrete, ◌+ℤ◌, ◌-ℤ◌}
use greatestworks.Gateway.Bound.Runs.{Run, Run-get_client, and_then, connects, here, logs_in}
use greatestworks.Gateway.Cache.{reconnection_delivers, send_rows}
use greatestworks.Gateway.Clients.{
  add_client, bind_user_id2_client, get_client, get_client_by_user_id, get_client_num,
  remove_client, send_msg,
}
use greatestworks.Gateway.Counted.{Calls-get_client_num, add_client_again, adds, none_yet, removes}
use greatestworks.Gateway.Handlers.{
  admit_client, login_error, login_handler, new_session, on_connect, on_user_verify,
  reconnection_error, reconnection_handler,
}
use greatestworks.Gateway.Messages.{client_online, disconnected_duration, send_msg_to_client}
use greatestworks.Gateway.Network.{
  ClientOnlineRet, accounts, cs_reconnection, message, raw, reconnection_ret_body, wires,
  wires-IsNetwork,
}
use greatestworks.Gateway.Samples.{
  login_seven, lost, open_wire, reconnect_seven, start, test_env, town,
}
use greatestworks.Gateway.State.{State, put}

one_differs : ◌≢◌ {A = ℕ} 1 2
one_differs = omega arith

two_differs : ◌≢◌ {A = ℕ} 2 1
two_differs = omega arith

-- A login on an empty gateway, and then a heartbeat.
abbrev connected : State wires accounts
connected = on_connect "10.1.1.1" 2 (put 2 (new_session test_env open_wire (pos 2)) start)

abbrev logged_in : State wires accounts
logged_in = login_handler test_env login_seven 2 connected

first-Run : Run start logged_in
first-Run =
    and_then
      (and_then here (connects test_env open_wire (pos 2) "10.1.1.1" 2 (λ u e. ground (arith, e))))
      (logs_in test_env login_seven 2)

logged_in_client : get_client_by_user_id 7 logged_in ≡ some 2
unfolding get_client_by_user_id login_handler login_error admit_client on_user_verify
    bind_user_id2_client send_msg on_connect add_client new_session String_discrete ℤ_discrete
    ℕ_discrete
logged_in_client = refl

Run-get_client_example :
    ((logged_in.sessions 2).user_id ≡ 7)
    × (wires.verified (logged_in.sessions 2).tcp ≡ true)
    × (get_client_by_user_id 9 logged_in ≡ some 2 → ◌≡◌ {A = ℕ} 7 9)
Run-get_client_example = Run-get_client wires-IsNetwork 7 9 2 refl first-Run logged_in_client

no_client : get_client (pos 1) start ≡ none
unfolding get_client
no_client = refl

abbrev two_calls : State wires accounts
two_calls = remove_client (pos 5) (add_client (pos 1) 1 start)

Calls-get_client_num_example : two_calls.players ≡ pos (get_client_num two_calls)
Calls-get_client_num_example =
    Calls-get_client_num {s = start} refl refl
      (removes (pos 5) (adds {t = start} (pos 1) 1 none_yet no_client))
      (unfold add_client remove_client ℤ_discrete in omega arith)

add_client_again_example :
    (get_client_num (add_client (pos 1) 2 town) ≡ get_client_num town)
    × ((add_client (pos 1) 2 town).players ≡ wrap_int32 (pos 2 +ℤ pos 1))
    × (get_client (pos 1) (add_client (pos 1) 2 town) ≡ some 2)
add_client_again_example = add_client_again (pos 1) 2 1 town (unfold get_client ℤ_discrete in refl)

lost_is_bound : get_client_by_user_id 7 town ≡ some 1
unfolding get_client_by_user_id ℕ_discrete
lost_is_bound = refl

within_a_minute : ltb_ℤ (test_env.now -ℤ lost.disconnected_time) disconnected_duration ≡ true
unfolding ◌-ℤ◌
within_a_minute = refl

abbrev online_again : ClientOnlineRet
online_again = record {
  userid = 7;
  result = 1;
  reconnection = true;
  players = pos 3;
  proc_index = 1;
  profile = [];
}

abbrev two_rows : List (List ℕ)
two_rows = (1 ∷ []) ∷ (2 ∷ []) ∷ []

may_come_back :
    reconnection_error test_env reconnect_seven 2 (send_rows test_env 7 two_rows town) ≡ none
unfolding send_rows send_msg_to_client reconnection_error get_client_by_user_id ℕ_discrete
    String_discrete ℤ_discrete ◌-ℤ◌
may_come_back = refl

reconnection_delivers_example :
    let gone : State wires accounts = send_rows test_env 7 two_rows town in
    let back =
      client_online online_again "w1" (reconnection_handler test_env reconnect_seven 2 gone) in
    ((back.sessions 2).tcp ≡ record {
      is_verified = true;
      closed = false;
      sent = raw (2 ∷ []) ∷ raw (1 ∷ []) ∷ message cs_reconnection (reconnection_ret_body 1) ∷ [];
    })
    × ((back.sessions 2).disconnected_messages ≡ [])
    × ((back.sessions 2).is_reconnection ≡ false)
reconnection_delivers_example =
    reconnection_delivers test_env test_env reconnect_seven online_again two_rows "w1" 2 1 0 town
      lost_is_bound two_differs (refl, within_a_minute, omega arith) may_come_back
      (unfold String_discrete in refl) refl refl
