-- ===== src/Gateway/Clients.antt =====
-- server/gateway/client/manager.go: the maps of clients, and messages to one client. Also the
-- messages of session.go to a world, over server/gateway/world/manager.go.
use greatestworks.Base.{
  Bool, Option, String, String_discrete, false, if◌then◌else◌, is_empty_str, ite, length, none,
  some, ℕ, ℕ_discrete, ◌%◌, ◌==◌, ◌^◌,
}
use greatestworks.Base.Int.{negsuc, pos, wrap_int32, ℤ, ℤ_discrete, ◌+ℤ◌}
use greatestworks.Base.SyncMap.{delete, load, store}
use greatestworks.Gateway.Network.{
  Body, MessageId, Network, Redis, client_offline_body, client_offline_id, client_online_body,
  client_online_id, cs_gateway_logout, logout_body,
}
use greatestworks.Gateway.State.{Env, State, modify, put_world}

module _ {n : Network} {r : Redis} where
  unfoldable pub get_client_num : State n r → ℕ
  get_client_num s = length s.clients % 2 ^ 32

  -- atomic.AddInt32(&m.players, d)
  abbrev pub add_players : ℤ → State n r → State n r
  add_players d s = record s { players = wrap_int32 (s.players +ℤ d) }

  unfoldable pub add_client : ℤ → ℕ → State n r → State n r
  unfolding wrap_int32 ◌+ℤ◌
  add_client client_id c s =
      add_players (pos 1) (record s { clients = store ℤ_discrete client_id c s.clients })

  unfoldable pub remove_client : ℤ → State n r → State n r
  unfolding wrap_int32 ◌+ℤ◌
  remove_client client_id s = elim (load ℤ_discrete client_id s.clients) [
    | none ↦ s
    | some c ↦ add_players (negsuc 0) (record s { clients = delete ℤ_discrete client_id s.clients })
  ]

  unfoldable pub bind_user_id2_client : ℕ → ℕ → State n r → State n r
  unfolding ℕ_discrete
  bind_user_id2_client user_id c s = record s {
    userid2clients = store ℕ_discrete user_id c s.userid2clients;
  }

  unfoldable pub unbind_user_id2_client : ℕ → ℕ → State n r → State n r
  unfolding ℕ_discrete
  unbind_user_id2_client user_id cli s = elim (load ℕ_discrete user_id s.userid2clients) [
    | none ↦ s
    | some c ↦
        if c == cli
        then record s { userid2clients = delete ℕ_discrete user_id s.userid2clients }
        else s
  ]

  unfoldable pub get_client : ℤ → State n r → Option ℕ
  get_client client_id s = load ℤ_discrete client_id s.clients

  unfoldable pub get_client_by_user_id : ℕ → State n r → Option ℕ
  unfolding ℕ_discrete
  get_client_by_user_id user_id s = load ℕ_discrete user_id s.userid2clients

  -- sendMsg, sendLastMsg and AsyncSendRowMsg of a client's session: the results are dropped by
  -- every caller but one.
  unfoldable pub send_msg : MessageId → Body → ℕ → State n r → State n r
  send_msg id body c s = modify c (λ v. record v { tcp = (n.async_send id body v.tcp).0 }) s

  unfoldable pub send_last_msg : MessageId → Body → ℕ → State n r → State n r
  send_last_msg id body c s =
      modify c (λ v. record v { tcp = (n.async_send_last_packet id body v.tcp).0 }) s

  unfoldable pub close : ℕ → State n r → State n r
  close c s = modify c (λ v. record v { tcp = n.close v.tcp }) s

  -- if !s.IsClosed() { s.Close() }
  unfoldable pub close_if_open : ℕ → State n r → State n r
  unfolding close
  close_if_open c s = if n.is_closed (s.sessions c).tcp then s else close c s

  -- world.Manager.SendMsgToWorldServer
  unfoldable pub send_msg_to_world_server : String → MessageId → Body → State n r → State n r × Bool
  send_msg_to_world_server srv_id cmd msg s = elim (load String_discrete srv_id s.endpoints) [
    | none ↦ (s, false)
    | some w ↦
        (let (tcp, ok) = n.async_send cmd msg (s.worlds w).tcp in
          (put_world w (record (s.worlds w) { tcp = tcp }) s, ok))
  ]

  unfoldable pub send_client_online_msg : Env → String → String → Bool → ℕ → State n r → State n r
  unfolding send_msg_to_world_server
  send_client_online_msg env online_id version reconnection c s =
      (send_msg_to_world_server online_id client_online_id
        (client_online_body (s.sessions c).user_id reconnection (s.sessions c).remote_ip
          env.tcp_address version)
        s).0

  unfoldable pub send_client_offline_msg : ℕ → String → ℕ → State n r → State n r
  unfolding send_msg_to_world_server
  send_client_offline_msg op_type world_server_id c s =
      (send_msg_to_world_server world_server_id client_offline_id
        (client_offline_body (s.sessions c).user_id op_type) s).0

  -- The same lines of clientDisConnection, clientNoResponseTimeout, ClientLogout and
  -- SendMsgToAllPlayer: the offline message of a client that is in a world; the account's gateway,
  -- if it is this one.
  unfoldable pub offline_if_in_world : ℕ → State n r → State n r
  unfolding send_client_offline_msg
  offline_if_in_world c s =
      if is_empty_str (s.sessions c).world_server_id
      then s
      else send_client_offline_msg 1 (s.sessions c).world_server_id c s

  unfoldable pub forget_account : Env → ℕ → State n r → State n r
  forget_account env c s =
      let user_id = (s.sessions c).user_id in
      let val : String = elim (r.account_gateway s.redis user_id) [ none ↦ "" | some a ↦ a ] in
      ite (String_discrete val env.tcp_address)
        (record s { redis = r.forget_gateway user_id s.redis }) s

  unfoldable pub drop_client : ℕ → State n r → State n r
  unfolding remove_client unbind_user_id2_client
  drop_client c s =
      unbind_user_id2_client (s.sessions c).user_id c (remove_client (s.sessions c).conn_id s)

  -- SRem of the user from the gateway's set.
  abbrev pub remove_gateway_user : Env → ℕ → State n r → State n r
  remove_gateway_user env c s = record s {
    redis = r.remove_user env.tcp_address (s.sessions c).user_id s.redis;
  }

  -- clientDisConnection and clientNoResponseTimeout, whose lines are the same.
  unfoldable pub client_dis_connection : Env → ℕ → State n r → State n r
  unfolding offline_if_in_world forget_account drop_client close_if_open
  client_dis_connection env c s =
      remove_gateway_user env c
        (close_if_open c (drop_client c (forget_account env c (offline_if_in_world c s))))

  unfoldable pub client_no_response_timeout : Env → ℕ → State n r → State n r
  unfolding offline_if_in_world forget_account drop_client close_if_open
  client_no_response_timeout env c s =
      remove_gateway_user env c
        (close_if_open c (drop_client c (forget_account env c (offline_if_in_world c s))))

  unfoldable pub client_logout : Env → ℕ → State n r → State n r
  unfolding forget_account drop_client send_last_msg
  client_logout env c s =
      send_last_msg cs_gateway_logout logout_body c
        (drop_client c (forget_account env c (remove_gateway_user env c s)))
