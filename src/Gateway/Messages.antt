-- ===== src/Gateway/Messages.antt =====
-- The rest of server/gateway/client/manager.go and session.go: messages to clients, the cache of a
-- disconnected client, reconnection, the check of the connections.
use greatestworks.Base.{
  Bool, List, Outcome, String, String_discrete, [], false, if◌then◌else◌, ite, length, none, not,
  panics, returns, some, true, ℕ, ◌&&◌, ◌++◌, ◌/◌, ◌==◌, ◌∷◌,
}
use greatestworks.Base.Int.{ltb_ℤ, pos, ℤ, ◌-ℤ◌}
use greatestworks.Base.SyncMap.{SyncMap, load}
use greatestworks.Gateway.Clients.{
  client_dis_connection, client_no_response_timeout, close, drop_client, forget_account,
  get_client_by_user_id, offline_if_in_world, send_last_msg, send_msg,
}
use greatestworks.Gateway.Network.{
  Body, ChatMsg, ClientOnlineRet, MessageId, Network, Redis, chat_body, cs_reconnection, join_body,
  reconnection_ret_body, sc_gateway_join_world, sc_kick,
}
use greatestworks.Gateway.State.{Env, Session, State, WorldSession, modify, put}

abbrev pub disconnected_duration : ℤ
disconnected_duration = pos 60000000000

abbrev pub ping_no_response_duration : ℤ
ping_no_response_duration = pos 300000000000

abbrev pub check_interval_sec : ℤ
check_interval_sec = pos 30

abbrev pub client_max_speed : ℤ
client_max_speed = pos 5120

abbrev pub client_max_frequency : ℤ
client_max_frequency = pos 30

-- The loop of clientReconnection.
abbrev pub send_all : (n : Network) → List (List ℕ) → n.Tcp → n.Tcp
send_all n [] t = t
send_all n (d ∷ ds) t = send_all n ds (n.async_send_row_msg d t).0

-- Manager.ClientOnline
abbrev pub register_once : {n : Network} → List ℕ → Session n → Session n
register_once ids v = elim v.registered [ none ↦ record v { registered = some ids } | some _ ↦ v ]

abbrev pub bound_to_world : {n : Network} → ClientOnlineRet → WorldSession n → Session n → Session n
bound_to_world msg w v =
    if msg.result == 1
    then record v {
      join_world_server_id = "";
      is_bind_world_server = true;
      world_server_id = w.session_id;
    }
    else v

module _ {n : Network} {r : Redis} where
  -- Manager.SendMsgToClient
  unfoldable pub send_msg_to_client : Env → ℕ → List ℕ → State n r → State n r × Bool
  unfolding get_client_by_user_id client_dis_connection
  send_msg_to_client env user_id row s = elim (get_client_by_user_id user_id s) [
    | none ↦ (s, false)
    | some c ↦
        (let v = s.sessions c in
          if not v.is_disconnected
          then (let (tcp, ok) = n.async_send_row_msg row v.tcp in
              (put c (record v { tcp = tcp }) s, ok))
          else if ltb_ℤ (env.now -ℤ v.disconnected_time) disconnected_duration
          then (if ltb_ℤ (pos (length v.disconnected_messages)) env.pri_msg_buff_size
              then (
                put c (record v { disconnected_messages = v.disconnected_messages ++ row ∷ [] }) s,
                false,
              )
              else (client_dis_connection env c s, false))
          else (client_dis_connection env c s, false))
  ]

  unfoldable pub client_reconnection : ℕ → ℕ → State n r → State n r
  unfolding send_msg
  client_reconnection ret c s =
      modify c
        (λ v. record v {
          tcp = send_all n v.disconnected_messages v.tcp;
          disconnected_messages = [];
        })
        (send_msg cs_reconnection (reconnection_ret_body ret) c s)

  unfoldable pub client_online : ClientOnlineRet → String → State n r → State n r
  unfolding get_client_by_user_id client_reconnection send_msg
  client_online msg srv_id s = elim (get_client_by_user_id msg.userid s) [
    | none ↦ s
    | some c ↦ elim (load String_discrete srv_id s.endpoints) [
      | none ↦ s
      | some w ↦
          (let world = s.worlds w in
            let s' =
              modify c (λ v. bound_to_world msg world (register_once world.handle_messages v)) s in
            if msg.reconnection
            then modify c (λ v. record v { is_reconnection = false })
                (client_reconnection msg.result c s')
            else modify c (λ v. record v { proc_index = msg.proc_index })
                (send_msg sc_gateway_join_world (join_body msg) c s'))
    ]
  ]

  -- Manager.WorldServerDisconnected, over the entries that `Range` visits.
  unfoldable pub world_server_disconnected : String → SyncMap ℤ ℕ → State n r → State n r
  unfolding drop_client close
  world_server_disconnected srv_id [] s = s
  world_server_disconnected srv_id ((k, c) ∷ m) s = world_server_disconnected srv_id m (
      ite (String_discrete (s.sessions c).world_server_id srv_id)
        (close c (modify c (λ v. record v { user_id = 0 }) (drop_client c s))) s)

  -- Manager.DisconnectedCheck
  unfoldable pub check_connection : Env → ℕ → State n r → State n r
  unfolding client_dis_connection
  check_connection env c s =
      if (s.sessions c).is_disconnected
        && ltb_ℤ disconnected_duration (env.now -ℤ (s.sessions c).disconnected_time)
      then client_dis_connection env c s
      else s

  unfoldable pub check_ping : Env → ℕ → State n r → State n r
  unfolding client_no_response_timeout
  check_ping env c s =
      if ltb_ℤ ping_no_response_duration (env.now -ℤ (s.sessions c).last_ping_time)
      then client_no_response_timeout env c s
      else s

  unfoldable pub disconnected_check : Env → SyncMap ℤ ℕ → State n r → State n r
  unfolding check_connection check_ping
  disconnected_check env [] s = s
  disconnected_check env ((k, c) ∷ m) s =
      disconnected_check env m (check_ping env c (check_connection env c s))

  -- Manager.SendMsgToAllPlayer
  unfoldable pub kick : Env → Body → ℕ → State n r → State n r
  unfolding send_last_msg offline_if_in_world forget_account drop_client
  kick env msg c s =
      drop_client c (forget_account env c (offline_if_in_world c (send_last_msg sc_kick msg c s)))

  unfoldable pub send_msg_to_all_player :
      Env → MessageId → Body → SyncMap ℤ ℕ → State n r → State n r
  unfolding kick send_msg
  send_msg_to_all_player env cmd msg [] s = s
  send_msg_to_all_player env sc_kick msg ((k, c) ∷ m) s =
      send_msg_to_all_player env sc_kick msg m (kick env msg c s)
  send_msg_to_all_player env cmd msg ((k, c) ∷ m) s =
      send_msg_to_all_player env cmd msg m (send_msg cmd msg c s)

  unfoldable pub broadcast_msg : MessageId → Body → SyncMap ℤ ℕ → State n r → State n r
  unfolding send_msg
  broadcast_msg cmd msg [] s = s
  broadcast_msg cmd msg ((k, c) ∷ m) s = broadcast_msg cmd msg m (send_msg cmd msg c s)

  -- Manager.BroadcastMsgSrv: the division panics for a range of 0.
  unfoldable pub broadcast_msg_srv :
      MessageId → ChatMsg → SyncMap ℤ ℕ → State n r → Outcome (State n r)
  unfolding send_msg
  broadcast_msg_srv cmd msg [] s = returns s
  broadcast_msg_srv cmd msg ((k, c) ∷ m) s =
      let next =
        (if (s.sessions c).proc_index / msg.range_of_srv == msg.proc_index / msg.range_of_srv
          then send_msg cmd (chat_body msg) c s
          else s) in
      let rest = broadcast_msg_srv cmd msg m next in if msg.range_of_srv == 0 then panics else rest
