-- ===== src/Gateway/Bound/Others.antt =====
-- The remaining events keep the invariant of `userid2Clients`.
use greatestworks.Base.{
  List, Option-cases, String, String_discrete, arith, false, if_rule, if◌then◌else◌, inl, inr,
  is_empty_str, ite, ite_rule, not, refl, true, ℕ, ◌&&◌, ◌==◌,
}
use greatestworks.Base.Float32.{Float32}
use greatestworks.Base.Int.{ltb_ℤ, pos, ℤ, ℤ_discrete}
use greatestworks.Base.SyncMap.{delete, load}
use greatestworks.Gateway.Bound.{IsBound, IsUnbound, modify-IsBound, modify_unbound}
use greatestworks.Gateway.Bound.Manager.{
  client_logout-IsBound, send_msg_to_client-IsBound, world_server_disconnected-IsBound,
}
use greatestworks.Gateway.Bound.Operations.{
  drop_client-IsBound, offline-IsBound, send_msg-IsBound, send_world-IsBound,
}
use greatestworks.Gateway.Clients.{
  add_client, get_client_by_user_id, send_client_offline_msg, send_client_online_msg, send_msg,
}
use greatestworks.Gateway.Handlers.{JoinRequest, is_wrong_token, new_session, on_close, on_connect}
use greatestworks.Gateway.Network.{
  ClientOfflineRet, IsNetwork, Network, Redis, client_offline_body, client_offline_id,
  client_online_body, client_online_id, heartbeat_body, join_error_body, sc_gateway_world_list,
  scene_heartbeat, world_list_body,
}
use greatestworks.Gateway.Requests.{
  enter_world, join_error, join_online_handler, limit_requests, logout_handler, online_entries,
  online_server_list_handler, scene_heartbeat_handler, wanted_sid,
}
use greatestworks.Gateway.State.{Env, State, modify, put}
use greatestworks.Gateway.Worlds.{
  ForwardPacket, RegisterRequest, add_session, client_offline_handler,
  gateway_forward_packet_handler, get_session_list, modify_world, on_world_close, register_handler,
  remove_server_client,
}

module _ {n : Network} {r : Redis} (net : IsNetwork n) where
  pub on_connect-IsBound :
      (env : Env) (tcp : n.Tcp) (conn_id : ℤ) (ip : String) (c : ℕ) (s : State n r)
      → IsUnbound c s
      → IsBound s
      → IsBound (on_connect ip c (put c (new_session env tcp conn_id) s))
  unfolding on_connect add_client
  on_connect-IsBound env tcp conn_id ip c s k b =
      let s1 = put c (new_session env tcp conn_id) s in
      modify-IsBound c (λ v. record v { remote_ip = ip }) (add_client (s1.sessions c).conn_id c s1)
        (λ v. (refl, refl)) (modify_unbound c (λ v. new_session env tcp conn_id) s k b)

  pub on_close-IsBound :
      (env : Env) (c : ℕ) (s : State n r) → IsBound s → IsBound (on_close env c s)
  unfolding on_close
  on_close-IsBound env c s b =
      if_rule IsBound ((s.sessions c).user_id == 0) (λ _. drop_client-IsBound net c s b)
        (λ _.
          modify-IsBound c (λ v. record v { is_disconnected = true; disconnected_time = env.now }) s
            (λ v. (refl, refl)) b)

  enter_world-IsBound :
      (env : Env) (version : String) (c : ℕ) (id : String) (s : State n r)
      → IsBound s
      → IsBound (enter_world env version c id s)
  unfolding enter_world send_client_online_msg send_client_offline_msg
  enter_world-IsBound env version c id s b =
      let s' = modify c (λ v. record v { join_world_server_id = id }) s in
      let b' : IsBound s' =
        modify-IsBound c (λ v. record v { join_world_server_id = id }) s (λ v. (refl, refl)) b in
      if_rule IsBound (is_empty_str (s.sessions c).world_server_id)
        (λ _.
          send_world-IsBound net id client_online_id
            (client_online_body (s'.sessions c).user_id false (s'.sessions c).remote_ip
              env.tcp_address version)
            s' b')
        (λ _.
          modify-IsBound c (λ v. record v { world_server_id = "" })
            (send_client_offline_msg 2 (s.sessions c).world_server_id c s') (λ v. (refl, refl))
            (send_world-IsBound net (s.sessions c).world_server_id client_offline_id
              (client_offline_body (s'.sessions c).user_id 2) s' b'))

  pub join-IsBound :
      (fl : Float32) (i : ℕ) (env : Env) (uid ip : String) (msg : JoinRequest) (c : ℕ)
      (s : State n r)
      → IsBound s
      → IsBound (join_online_handler fl i env uid ip msg c s)
  unfolding join_online_handler
  join-IsBound fl i env uid ip msg c s b =
      let sid = wanted_sid fl i msg s in
      if_rule IsBound (n.verified (s.sessions c).tcp)
        (λ _. elim (Option-cases (join_error env uid ip msg sid c s)) [
          | inl e ↦ elim (Option-cases (load String_discrete sid s.endpoints)) [
            | inl f ↦ rw (e, f) b
            | inr (w, f) ↦
                rw (e, f) (enter_world-IsBound env msg.version c (s.worlds w).session_id s b)
          ]
          | inr ((cmd, code), e) ↦
              rw e (send_msg-IsBound net cmd (join_error_body code (s.sessions c).user_id) c s b)
        ])
        (λ _. b)

  pub list-IsBound :
      (env : Env) (zone_id : ℤ) (c : ℕ) (s : State n r)
      → IsBound s
      → IsBound (online_server_list_handler env zone_id c s)
  unfolding online_server_list_handler
  list-IsBound env zone_id c s b =
      if_rule IsBound (n.verified (s.sessions c).tcp)
        (λ _.
          if_rule IsBound (ltb_ℤ (pos 0) zone_id && ite (ℤ_discrete zone_id env.zone_id) false true)
            (λ _. b)
            (λ _.
              send_msg-IsBound net sc_gateway_world_list
                (world_list_body (online_entries (get_session_list s))) c s b))
        (λ _. b)

  pub heartbeat-IsBound :
      (env : Env) (c : ℕ) (s : State n r) → IsBound s → IsBound (scene_heartbeat_handler env c s)
  unfolding scene_heartbeat_handler
  heartbeat-IsBound env c s b =
      modify-IsBound c (λ v. record v { last_ping_time = env.now })
        (send_msg scene_heartbeat (heartbeat_body env.unix) c s) (λ v. (refl, refl))
        (send_msg-IsBound net scene_heartbeat (heartbeat_body env.unix) c s b)

  pub logout-IsBound :
      (env : Env) (u : ℕ) (token : String) (c : ℕ) (s : State n r)
      → IsBound s
      → IsBound (logout_handler env u token c s)
  unfolding logout_handler
  logout-IsBound env u token c s b =
      if_rule IsBound
        (n.verified (s.sessions c).tcp && not (is_wrong_token token (r.token s.redis u)))
        (λ _. offline-IsBound net c s b) (λ _. b)

  add_session-IsBound :
      (id address : String) (ids : List ℕ) (w pro : ℕ) (zone : ℤ) (s : State n r)
      → IsBound s
      → IsBound (add_session id address ids w pro zone s)
  unfolding add_session
  add_session-IsBound id address ids w pro zone s b =
      elim (Option-cases (load String_discrete id s.endpoints)) [
        | inl e ↦ rw (e, add_session) b
        | inr (old, e) ↦ rw (e, add_session) (ground (arith, b))
      ]

  pub register-IsBound :
      (env : Env) (msg : RegisterRequest) (w : ℕ) (s : State n r)
      → IsBound s
      → IsBound (register_handler env msg w s)
  unfolding register_handler
  register-IsBound env msg w s b =
      let s' =
        (if msg.is_world
          then add_session msg.server_id msg.server_addr msg.msg_ids w msg.proc_index msg.zone_id s
          else s) in
      let b' : IsBound s' =
        if_rule IsBound msg.is_world
          (λ _.
            add_session-IsBound msg.server_id msg.server_addr msg.msg_ids w msg.proc_index
              msg.zone_id s b)
          (λ _. b) in
      ite_rule IsBound (String_discrete msg.token "greatest_works")
        (λ _. ite_rule IsBound (ℤ_discrete msg.zone_id env.zone_id) (λ _. b') (λ _. b)) (λ _. b)

  pub offline_ret-IsBound :
      (env : Env) (msg : ClientOfflineRet) (w : ℕ) (s : State n r)
      → IsBound s
      → IsBound (client_offline_handler env msg w s)
  unfolding client_offline_handler send_client_online_msg
  offline_ret-IsBound env msg w s b =
      let s' = modify_world w (λ v. record v { players = msg.players }) s in
      if_rule IsBound (not (msg.result == 1)) (λ _. b)
        (λ _. elim (Option-cases (get_client_by_user_id msg.userid s')) [
          | inl e ↦ rw e b
          | inr (c, e) ↦ rw e (
              if_rule IsBound (msg.op_type == 1) (λ _. client_logout-IsBound net env c s' b)
                (λ _.
                  send_world-IsBound net (s'.sessions c).join_world_server_id client_online_id
                    (client_online_body (s'.sessions c).user_id false (s'.sessions c).remote_ip
                      env.tcp_address msg.version)
                    s' b))
        ])

  pub forward-IsBound :
      (env : Env) (msg : ForwardPacket) (w : ℕ) (s : State n r)
      → IsBound s
      → IsBound (gateway_forward_packet_handler env msg w s)
  unfolding gateway_forward_packet_handler
  forward-IsBound env msg w s b = elim (Option-cases (get_client_by_user_id msg.userid s)) [
    | inl e ↦ rw (e, gateway_forward_packet_handler) b
    | inr (c, e) ↦
        let p = send_msg_to_client-IsBound net env msg.userid msg.row s b in
        rw (e, gateway_forward_packet_handler)
          (if_rule IsBound (s.sessions c).is_bind_world_server
            (λ _. if_rule IsBound (ltb_ℤ msg.player_number (pos 0)) (λ _. p) (λ _. p)) (λ _. b))
  ]

  pub world_close-IsBound : (w : ℕ) (s : State n r) → IsBound s → IsBound (on_world_close w s)
  unfolding on_world_close remove_server_client
  world_close-IsBound w s b =
      let id = (s.worlds w).session_id in
      if_rule IsBound (is_empty_str id) (λ _. b)
        (λ _. elim (Option-cases (load String_discrete id s.endpoints)) [
          | inl e ↦ rw (e, remove_server_client) b
          | inr (d, e) ↦
              rw (e, remove_server_client)
                (world_server_disconnected-IsBound net id s.clients
                  (record s { endpoints = delete String_discrete id s.endpoints }) b)
        ])

  pub limit-IsBound :
      (env : Env) (size c : ℕ) (s : State n r)
      → IsBound s
      → IsBound (put c (limit_requests env size (s.sessions c)).0 s)
  unfolding limit_requests
  limit-IsBound env size c s b =
      modify-IsBound c (λ v. (limit_requests env size v).0) s
        (λ v. ground (arith, net.verified-close v.tcp)) b
