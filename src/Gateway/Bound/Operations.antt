-- ===== src/Gateway/Bound/Operations.antt =====
-- The operations on clients keep the invariant of `userid2Clients`.
use greatestworks.Base.{
  Option-cases, String, String_discrete, ap, arith, if_rule, inl, inr, is_empty_str, refl, ℕ, ◌≡◌,
}
use greatestworks.Base.Int.{ℤ, ℤ_discrete}
use greatestworks.Base.SyncMap.{load}
use greatestworks.Gateway.Bound.{
  IsBound, IsUnbound, modify-IsBound, unbind-IsBound, unbind-IsUnbound,
}
use greatestworks.Gateway.Clients.{
  client_dis_connection, close, close_if_open, drop_client, forget_account, offline_if_in_world,
  remove_client, send_client_offline_msg, send_last_msg, send_msg, send_msg_to_world_server,
}
use greatestworks.Gateway.Network.{
  Body, IsNetwork, MessageId, Network, Redis, client_offline_body, client_offline_id,
}
use greatestworks.Gateway.State.{Env, Session, State}

module _ {n : Network} {r : Redis} (net : IsNetwork n) where
  pub send_msg-IsBound :
      (id : MessageId) (b : Body) (c : ℕ) (s : State n r) → IsBound s → IsBound (send_msg id b c s)
  unfolding send_msg
  send_msg-IsBound id b c s =
      modify-IsBound c (λ v. record v { tcp = (n.async_send id b v.tcp).0 }) s
        (λ v. (refl, net.verified-async_send id b v.tcp))

  pub send_last_msg-IsBound :
      (id : MessageId) (b : Body) (c : ℕ) (s : State n r)
      → IsBound s
      → IsBound (send_last_msg id b c s)
  unfolding send_last_msg
  send_last_msg-IsBound id b c s =
      modify-IsBound c (λ v. record v { tcp = (n.async_send_last_packet id b v.tcp).0 }) s
        (λ v. (refl, net.verified-async_send_last_packet id b v.tcp))

  pub close-IsBound : (c : ℕ) (s : State n r) → IsBound s → IsBound (close c s)
  unfolding close
  close-IsBound c s =
      modify-IsBound c (λ v. record v { tcp = n.close v.tcp }) s
        (λ v. (refl, net.verified-close v.tcp))

  pub close_if_open-IsBound : (c : ℕ) (s : State n r) → IsBound s → IsBound (close_if_open c s)
  unfolding close_if_open
  close_if_open-IsBound c s b =
      if_rule IsBound (n.is_closed (s.sessions c).tcp) (λ _. b) (λ _. close-IsBound c s b)

  pub send_world-IsBound :
      (srv_id : String) (cmd : MessageId) (msg : Body) (s : State n r)
      → IsBound s
      → IsBound (send_msg_to_world_server srv_id cmd msg s).0
  unfolding send_msg_to_world_server
  send_world-IsBound srv_id cmd msg s b =
      elim (Option-cases (load String_discrete srv_id s.endpoints)) [
        | inl e ↦ rw (e, send_msg_to_world_server) b
        | inr (w, e) ↦ rw (e, send_msg_to_world_server) b
      ]

  pub offline-IsBound : (c : ℕ) (s : State n r) → IsBound s → IsBound (offline_if_in_world c s)
  unfolding offline_if_in_world send_client_offline_msg
  offline-IsBound c s b =
      if_rule IsBound (is_empty_str (s.sessions c).world_server_id) (λ _. b)
        (λ _.
          send_world-IsBound (s.sessions c).world_server_id client_offline_id
            (client_offline_body (s.sessions c).user_id 1) s b)

  pub forget-IsBound :
      (env : Env) (c : ℕ) (s : State n r) → IsBound s → IsBound (forget_account env c s)
  unfolding forget_account
  forget-IsBound env c s b = ground (arith, b)

  pub remove_client-IsBound : (k : ℤ) (s : State n r) → IsBound s → IsBound (remove_client k s)
  unfolding remove_client
  remove_client-IsBound k s b = elim (Option-cases (load ℤ_discrete k s.clients)) [
    | inl e ↦ rw (e, remove_client) b
    | inr (c, e) ↦ rw (e, remove_client) b
  ]

  pub drop_client-IsBound : (c : ℕ) (s : State n r) → IsBound s → IsBound (drop_client c s)
  unfolding drop_client
  drop_client-IsBound c s b =
      unbind-IsBound (s.sessions c).user_id c (remove_client (s.sessions c).conn_id s)
        (remove_client-IsBound (s.sessions c).conn_id s b)

  pub sessions-remove_client : (k : ℤ) (s : State n r) → (remove_client k s).sessions ≡ s.sessions
  unfolding remove_client
  sessions-remove_client k s = ground arith

  pub drop_client-IsUnbound : (c : ℕ) (s : State n r) → IsBound s → IsUnbound c (drop_client c s)
  unfolding drop_client
  drop_client-IsUnbound c s b =
      let s' = remove_client (s.sessions c).conn_id s in
      rw
        (← ap (λ (f : ℕ → Session n). (f c).user_id)
          (sessions-remove_client (s.sessions c).conn_id s))
        (unbind-IsUnbound c s' (remove_client-IsBound (s.sessions c).conn_id s b))

  pub dis_connection-IsBound :
      (env : Env) (c : ℕ) (s : State n r) → IsBound s → IsBound (client_dis_connection env c s)
  unfolding client_dis_connection
  dis_connection-IsBound env c s b =
      let s1 = offline_if_in_world c s in
      let s2 = forget_account env c s1 in
      close_if_open-IsBound c (drop_client c s2)
        (drop_client-IsBound c s2 (forget-IsBound env c s1 (offline-IsBound c s b)))
