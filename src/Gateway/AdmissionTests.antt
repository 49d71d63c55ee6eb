-- ===== src/Gateway/AdmissionTests.antt =====
-- Logins, reconnections and drops on concrete inputs.
use greatestworks.Base.{
  String_discrete, [], ap, arith, false, if_rule, inl, length, none, refl, some, true, ℕ_discrete,
  ◌==◌, ◌∙◌, ◌∷◌, ◌≡◌, ◌≢◌,
}
use greatestworks.Base.Int.{pos, ℤ, ℤ_discrete, ◌-ℤ◌, ◌≤ℤ◌}
use greatestworks.Gateway.Admission.{IsTokenOf, login_replaces, login_safe, reconnection_safe}
use greatestworks.Gateway.Cache.{reconnection_takes_over, take_over_lem}
use greatestworks.Gateway.Clients.{get_client, get_client_by_user_id}
use greatestworks.Gateway.Drop.Check.{check_drops, is_stale}
use greatestworks.Gateway.Drop.Full.{IsWithin, send_msg_to_client-IsWithin, send_msg_to_client_full}
use greatestworks.Gateway.Handlers.{
  login_error, login_handler, reconnection_error, reconnection_handler,
}
use greatestworks.Gateway.Handover.{reconnection_binds_twice}
use greatestworks.Gateway.Limits.{limit_requests_lem}
use greatestworks.Gateway.Messages.{disconnected_check, send_msg_to_client}
use greatestworks.Gateway.Network.{accounts, wires}
use greatestworks.Gateway.Requests.{limit_requests}
use greatestworks.Gateway.Samples.{
  gateway_address, login_seven, lost, newcomer, open_wire, reconnect_seven, redis_data, test_env,
  town,
}
use greatestworks.Gateway.State.{Env, Session, State}

seven_differs : get_client_by_user_id 7 town ≢ some 2
unfolding get_client_by_user_id ℕ_discrete
seven_differs = λ e. ground (arith, e)

seven_is_lost : get_client_by_user_id 7 town ≡ some 1
unfolding get_client_by_user_id ℕ_discrete
seven_is_lost = refl

seven_may_log_in : login_error test_env login_seven 2 town ≡ none
unfolding login_error get_client_by_user_id ℕ_discrete String_discrete ℤ_discrete
seven_may_log_in = refl

login_replaces_example :
    let t : State wires accounts = login_handler test_env login_seven 2 town in
    (get_client_by_user_id 7 t ≡ some 2)
    × (get_client (pos 1) t ≡ none)
    × ((t.sessions 2).world_server_id ≡ "w1")
unfolding String_discrete
login_replaces_example =
    login_replaces test_env login_seven 2 1 town refl seven_may_log_in seven_is_lost

login_safe_example :
    IsTokenOf accounts redis_data 7 "t7"
    × (◌≡◌ {A = ℤ} (pos 1) (pos 1))
    × (accounts.account_gateway redis_data 7 ≡ some gateway_address)
unfolding String_discrete
login_safe_example =
    login_safe test_env login_seven 2 town seven_differs
      (login_replaces test_env login_seven 2 1 town refl seven_may_log_in seven_is_lost).0

seven_may_reconnect : reconnection_error test_env reconnect_seven 2 town ≡ none
unfolding reconnection_error get_client_by_user_id ℕ_discrete String_discrete ℤ_discrete
seven_may_reconnect = refl

seven_comes_back :
    get_client_by_user_id 7 (reconnection_handler test_env reconnect_seven 2 town) ≡ some 2
seven_comes_back =
    ap (λ (t : State wires accounts). get_client_by_user_id 7 t)
      (reconnection_takes_over test_env reconnect_seven 2 1 town seven_may_reconnect seven_is_lost
        (omega arith))
    ∙ (take_over_lem test_env reconnect_seven 2 1 town (omega arith)).0

reconnection_safe_example :
    IsTokenOf accounts redis_data 7 "t7"
    × (◌≡◌ {A = ℤ} (pos 1) (pos 1))
    × (get_client_by_user_id 7 town ≢ none)
reconnection_safe_example =
    reconnection_safe test_env reconnect_seven 2 town seven_differs seven_comes_back

-- Session 2 has logged in as user 8.
abbrev two_users : State wires accounts
two_users = record town { userid2clients = (7, 1) ∷ (8, 2) ∷ [] }

reconnection_binds_twice_example :
    let t : State wires accounts = reconnection_handler test_env reconnect_seven 2 two_users in
    (get_client_by_user_id 8 t ≡ some 2) × (get_client_by_user_id 7 t ≡ some 2)
reconnection_binds_twice_example =
    reconnection_binds_twice test_env reconnect_seven 8 2 1 two_users
      (unfold reconnection_error get_client_by_user_id ℕ_discrete String_discrete ℤ_discrete in
        refl)
      (unfold get_client_by_user_id ℕ_discrete in refl)
      (unfold get_client_by_user_id ℕ_discrete in refl) (omega arith)

abbrev later : Env
later = record test_env { now = pos 160000000000 }

lost-is_stale : is_stale later lost ≡ true
unfolding ◌-ℤ◌
lost-is_stale = refl

check_drops_example :
    (get_client (pos 1) (disconnected_check later town.clients town) ≡ none)
    × (get_client_by_user_id 7 (disconnected_check later town.clients town) ≢ some 1)
check_drops_example = check_drops later (pos 1) 1 town.clients town (inl refl) lost-is_stale

town-IsWithin : IsWithin test_env town
town-IsWithin d =
    if_rule (λ (v : Session wires). pos (length v.disconnected_messages) ≤ℤ pos 4) (d == 1)
      (λ _. omega arith)
      (λ _.
        if_rule (λ (v : Session wires). pos (length v.disconnected_messages) ≤ℤ pos 4) (d == 2)
          (λ _. omega arith) (λ _. omega arith))

send_msg_to_client-IsWithin_example :
    IsWithin test_env (send_msg_to_client test_env 7 (5 ∷ []) town).0
send_msg_to_client-IsWithin_example =
    send_msg_to_client-IsWithin test_env 7 (5 ∷ []) town town-IsWithin

send_msg_to_client_full_example :
    ((send_msg_to_client later 7 (5 ∷ []) town).1 ≡ false)
    × (get_client (pos 1) (send_msg_to_client later 7 (5 ∷ []) town).0 ≡ none)
    × (get_client_by_user_id 7 (send_msg_to_client later 7 (5 ∷ []) town).0 ≡ none)
send_msg_to_client_full_example =
    send_msg_to_client_full later 7 1 (5 ∷ []) town seven_is_lost refl refl (unfold ◌-ℤ◌ in refl)

limit_requests_lem_example :
    let (v, goes_on) = limit_requests test_env 100 newcomer in
    (goes_on ≡ true) × (v.tcp ≡ open_wire) × ((v.request_speed ≡ pos 0) × (v.req_frequency ≡ pos 0))
limit_requests_lem_example =
    limit_requests_lem test_env 100 0 0 40 newcomer (refl, refl) (omega arith) (omega arith)
      (unfold ◌-ℤ◌ in refl)
