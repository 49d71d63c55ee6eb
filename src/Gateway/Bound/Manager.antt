-- ===== src/Gateway/Bound/Manager.antt =====
-- What the managers of clients and worlds do keeps the invariant of `userid2Clients`.
use greatestworks.Base.{
  Bool, List, Option-cases, String, String_discrete, [], arith, false, if_rule, inl, inr, ite,
  ite_rule, length, not, refl, ℕ, ◌&&◌, ◌++◌, ◌∙◌, ◌∷◌, ◌≡◌,
}
use greatestworks.Base.Int.{ltb_ℤ, pos, ℤ, ◌-ℤ◌}
use greatestworks.Base.SyncMap.{SyncMap, load}
use greatestworks.Gateway.Bound.{IsBound, Keeps, modify-IsBound, modify_unbound}
use greatestworks.Gateway.Bound.Operations.{
  close-IsBound, dis_connection-IsBound, drop_client-IsBound, drop_client-IsUnbound, forget-IsBound,
  offline-IsBound, send_last_msg-IsBound, send_msg-IsBound,
}
use greatestworks.Gateway.Clients.{
  client_dis_connection, client_logout, client_no_response_timeout, close, drop_client,
  forget_account, get_client_by_user_id, offline_if_in_world, remove_gateway_user, send_last_msg,
  send_msg,
}
use greatestworks.Gateway.Messages.{
  bound_to_world, broadcast_msg, check_connection, check_ping, client_online, client_reconnection,
  disconnected_check, disconnected_duration, kick, ping_no_response_duration, register_once,
  send_all, send_msg_to_all_player, send_msg_to_client, world_server_disconnected,
}
use greatestworks.Gateway.Network.{
  Body, ClientOnlineRet, IsNetwork, MessageId, Network, Redis, cs_gateway_logout, cs_reconnection,
  join_body, logout_body, reconnection_ret_body, sc_gateway_join_world, sc_kick,
}
use greatestworks.Gateway.State.{Env, Session, State, WorldSession, modify}

verified-send_all :
    {n : Network} (net : IsNetwork n) (ds : List (List ℕ)) (t : n.Tcp)
    → n.verified (send_all n ds t) ≡ n.verified t
verified-send_all net [] t = refl
verified-send_all {n = n} net (d ∷ ds) t =
    verified-send_all net ds (n.async_send_row_msg d t).0 ∙ net.verified-async_send_row_msg d t

welcome-Keeps :
    {n : Network} (msg : ClientOnlineRet) (w : WorldSession n)
    → Keeps (λ (v : Session n). bound_to_world msg w (register_once w.handle_messages v))
welcome-Keeps msg w v = ground arith

module _ {n : Network} {r : Redis} (net : IsNetwork n) where
  pub send_msg_to_client-IsBound :
      (env : Env) (u : ℕ) (row : List ℕ) (s : State n r)
      → IsBound s
      → IsBound (send_msg_to_client env u row s).0
  unfolding send_msg_to_client
  send_msg_to_client-IsBound env u row s b = elim (Option-cases (get_client_by_user_id u s)) [
    | inl e ↦ rw (e, send_msg_to_client) b
    | inr (c, e) ↦
        let v = s.sessions c in
        let p = dis_connection-IsBound net env c s b in
        rw (e, send_msg_to_client)
          (if_rule (λ (t : State n r × Bool). IsBound t.0) (not v.is_disconnected)
            (λ _.
              modify-IsBound c (λ v. record v { tcp = (n.async_send_row_msg row v.tcp).0 }) s
                (λ v. (refl, net.verified-async_send_row_msg row v.tcp)) b)
            (λ _.
              if_rule (λ (t : State n r × Bool). IsBound t.0)
                (ltb_ℤ (env.now -ℤ v.disconnected_time) disconnected_duration)
                (λ _.
                  if_rule (λ (t : State n r × Bool). IsBound t.0)
                    (ltb_ℤ (pos (length v.disconnected_messages)) env.pri_msg_buff_size)
                    (λ _.
                      modify-IsBound c
                        (λ v. record v {
                          disconnected_messages = v.disconnected_messages ++ row ∷ [];
                        })
                        s (λ v. (refl, refl)) b)
                    (λ _. p))
                (λ _. p)))
  ]

  client_reconnection-IsBound :
      (ret c : ℕ) (s : State n r) → IsBound s → IsBound (client_reconnection ret c s)
  unfolding client_reconnection
  client_reconnection-IsBound ret c s b =
      modify-IsBound c
        (λ v. record v {
          tcp = send_all n v.disconnected_messages v.tcp;
          disconnected_messages = [];
        })
        (send_msg cs_reconnection (reconnection_ret_body ret) c s)
        (λ v. (refl, verified-send_all net v.disconnected_messages v.tcp))
        (send_msg-IsBound net cs_reconnection (reconnection_ret_body ret) c s b)

  pub client_online-IsBound :
      (msg : ClientOnlineRet) (srv_id : String) (s : State n r)
      → IsBound s
      → IsBound (client_online msg srv_id s)
  unfolding client_online
  client_online-IsBound msg srv_id s b = elim (Option-cases (get_client_by_user_id msg.userid s)) [
    | inl e ↦ rw (e, client_online) b
    | inr (c, e) ↦ elim (Option-cases (load String_discrete srv_id s.endpoints)) [
      | inl f ↦ rw (e, f, client_online) b
      | inr (w, f) ↦
          let world = s.worlds w in
          let s' =
            modify c (λ v. bound_to_world msg world (register_once world.handle_messages v)) s in
          let b' : IsBound s' =
            modify-IsBound c (λ v. bound_to_world msg world (register_once world.handle_messages v))
              s (welcome-Keeps msg world) b in
          rw (e, f, client_online)
            (if_rule IsBound msg.reconnection
              (λ _.
                modify-IsBound c (λ v. record v { is_reconnection = false })
                  (client_reconnection msg.result c s') (λ v. (refl, refl))
                  (client_reconnection-IsBound msg.result c s' b'))
              (λ _.
                modify-IsBound c (λ v. record v { proc_index = msg.proc_index })
                  (send_msg sc_gateway_join_world (join_body msg) c s') (λ v. (refl, refl))
                  (send_msg-IsBound net sc_gateway_join_world (join_body msg) c s' b')))
    ]
  ]

  pub world_server_disconnected-IsBound :
      (srv_id : String) (m : SyncMap ℤ ℕ) (s : State n r)
      → IsBound s
      → IsBound (world_server_disconnected srv_id m s)
  unfolding world_server_disconnected
  world_server_disconnected-IsBound srv_id [] s b = b
  world_server_disconnected-IsBound srv_id ((k, c) ∷ m) s b =
      let s1 = drop_client c s in
      let s2 = modify c (λ v. record v { user_id = 0 }) s1 in
      let b2 : IsBound s2 =
        modify_unbound c (λ v. record v { user_id = 0 }) s1 (drop_client-IsUnbound net c s b)
          (drop_client-IsBound net c s b) in
      let d = String_discrete (s.sessions c).world_server_id srv_id in
      world_server_disconnected-IsBound srv_id m (ite d (close c s2) s)
        (ite_rule IsBound d (λ _. close-IsBound net c s2 b2) (λ _. b))

  pub disconnected_check-IsBound :
      (env : Env) (m : SyncMap ℤ ℕ) (s : State n r)
      → IsBound s
      → IsBound (disconnected_check env m s)
  unfolding disconnected_check check_connection check_ping client_no_response_timeout
      client_dis_connection
  disconnected_check-IsBound env [] s b = b
  disconnected_check-IsBound env ((k, c) ∷ m) s b =
      let s1 = check_connection env c s in
      let b1 : IsBound s1 =
        if_rule IsBound
          ((s.sessions c).is_disconnected
            && ltb_ℤ disconnected_duration (env.now -ℤ (s.sessions c).disconnected_time))
          (λ _. dis_connection-IsBound net env c s b) (λ _. b) in
      disconnected_check-IsBound env m (check_ping env c s1) (
        if_rule IsBound
          (ltb_ℤ ping_no_response_duration (env.now -ℤ (s1.sessions c).last_ping_time))
          (λ _. dis_connection-IsBound net env c s1 b1) (λ _. b1))

  kick-IsBound :
      (env : Env) (msg : Body) (c : ℕ) (s : State n r) → IsBound s → IsBound (kick env msg c s)
  unfolding kick
  kick-IsBound env msg c s b =
      let s1 = send_last_msg sc_kick msg c s in
      let s2 = offline_if_in_world c s1 in
      drop_client-IsBound net c (forget_account env c s2) (
        forget-IsBound net env c s2
          (offline-IsBound net c s1 (send_last_msg-IsBound net sc_kick msg c s b)))

  pub broadcast_msg-IsBound :
      (cmd : MessageId) (msg : Body) (m : SyncMap ℤ ℕ) (s : State n r)
      → IsBound s
      → IsBound (broadcast_msg cmd msg m s)
  unfolding broadcast_msg
  broadcast_msg-IsBound cmd msg [] s b = b
  broadcast_msg-IsBound cmd msg ((k, c) ∷ m) s b =
      broadcast_msg-IsBound cmd msg m (send_msg cmd msg c s) (send_msg-IsBound net cmd msg c s b)

  pub kick_all-IsBound :
      (env : Env) (msg : Body) (m : SyncMap ℤ ℕ) (s : State n r)
      → IsBound s
      → IsBound (send_msg_to_all_player env sc_kick msg m s)
  unfolding send_msg_to_all_player
  kick_all-IsBound env msg [] s b = b
  kick_all-IsBound env msg ((k, c) ∷ m) s b =
      kick_all-IsBound env msg m (kick env msg c s) (kick-IsBound env msg c s b)

  pub client_logout-IsBound :
      (env : Env) (c : ℕ) (s : State n r) → IsBound s → IsBound (client_logout env c s)
  unfolding client_logout
  client_logout-IsBound env c s b =
      let s1 = forget_account env c (remove_gateway_user env c s) in
      send_last_msg-IsBound net cs_gateway_logout logout_body c (drop_client c s1)
        (drop_client-IsBound net c s1 (forget-IsBound net env c (remove_gateway_user env c s) b))
