-- ===== src/Gateway/Bound/Handlers.antt =====
-- The requests of clients keep the invariant of `userid2Clients`.
use greatestworks.Base.{
  Option-cases, false, if_rule, if◌then◌else◌, inl, inr, is_empty_str, refl, true, ℕ, ◌==◌, ◌≡◌,
}
use greatestworks.Base.Int.{ℤ, ℤ_discrete}
use greatestworks.Base.SyncMap.{load}
use greatestworks.Gateway.Bound.{
  IsBound, IsUnbound, modify-IsBound, modify_unbound, not_verified, unbind-IsBound,
  unbind-IsUnbound, unbind-IsUnbound_other, verify-IsBound,
}
use greatestworks.Gateway.Bound.Operations.{
  close-IsBound, drop_client-IsBound, drop_client-IsUnbound, send_last_msg-IsBound,
  send_msg-IsBound, send_world-IsBound,
}
use greatestworks.Gateway.Clients.{
  close, drop_client, get_client_by_user_id, remove_client, send_client_online_msg, send_last_msg,
  unbind_user_id2_client,
}
use greatestworks.Gateway.Handlers.{
  LoginRequest, ReconnectRequest, admit_client, login_error, login_handler, on_user_verify,
  reconnection_error, reconnection_handler, replace_client, take_over,
}
use greatestworks.Gateway.Network.{
  IsNetwork, Network, Redis, client_online_body, client_online_id, kick_body, login_body,
  reconnection_body, sc_gateway_login, sc_kick, sc_reconnection, success,
}
use greatestworks.Gateway.State.{Env, State, modify}

module _ {n : Network} {r : Redis} (net : IsNetwork n) where
  abbrev Good : ℕ → State n r → Type 0
  Good c s = IsBound s × IsUnbound c s

  removed : (k : ℤ) (c : ℕ) (s : State n r) → Good c s → Good c (remove_client k s)
  unfolding remove_client
  removed k c s g = elim (Option-cases (load ℤ_discrete k s.clients)) [
    | inl e ↦ rw (e, remove_client) g
    | inr (d, e) ↦ rw (e, remove_client) g
  ]

  replaced : (c old : ℕ) (s : State n r) → Good c s → Good c (replace_client c old s)
  unfolding replace_client send_last_msg
  replaced c old s (b, k) =
      let s1 = unbind_user_id2_client (s.sessions old).user_id old s in
      let b1 : IsBound s1 = unbind-IsBound (s.sessions old).user_id old s b in
      let k1 : IsUnbound c s1 = unbind-IsUnbound_other (s.sessions old).user_id old c s k in
      let o1 : IsUnbound old s1 = unbind-IsUnbound old s b in
      let id = (s1.sessions old).world_server_id in
      let s2 = modify c (λ v. record v { world_server_id = id }) s1 in
      let b2 : IsBound s2 =
        modify-IsBound c (λ v. record v { world_server_id = id }) s1 (λ v. (refl, refl)) b1 in
      let s3 =
        (if is_empty_str id
          then s1
          else modify old (λ v. record v { user_id = 0; world_server_id = "" }) s2) in
      let g3 : Good c s3 =
        if_rule (Good c) (is_empty_str id) (λ _. (b1, k1))
          (λ _. (
            modify_unbound old (λ v. record v { user_id = 0; world_server_id = "" }) s2 o1 b2,
            k1,
          )) in
      let s4 = send_last_msg sc_kick kick_body old s3 in
      removed (s4.sessions old).conn_id c s4
        (send_last_msg-IsBound net sc_kick kick_body old s3 g3.0, g3.1)

  admitted :
      (env : Env) (msg : LoginRequest) (c : ℕ) (s : State n r)
      → Good c s
      → IsBound (admit_client env msg c s)
  unfolding admit_client
  admitted env msg c s (b, k) =
      send_msg-IsBound net sc_gateway_login (login_body success msg.userid msg.token msg.zone_id) c
        (on_user_verify msg.userid c s) (verify-IsBound msg.userid c s net k b)

  pub login_handler-IsBound :
      (env : Env) (msg : LoginRequest) (c : ℕ) (s : State n r)
      → IsBound s
      → IsBound (login_handler env msg c s)
  unfolding login_handler
  login_handler-IsBound env msg c s b =
      if_rule IsBound (n.verified (s.sessions c).tcp) (λ _. b)
        (λ v.
          let k = not_verified c s b v in
          elim (Option-cases (login_error env msg c s)) [
            | inl e ↦ elim (Option-cases (get_client_by_user_id msg.userid s)) [
              | inl f ↦ rw (e, f) (admitted env msg c s (b, k))
              | inr (old, f) ↦
                  rw (e, f) (admitted env msg c (replace_client c old s) (replaced c old s (b, k)))
            ]
            | inr (code, e) ↦ rw e (
                send_msg-IsBound net sc_gateway_login
                  (login_body code msg.userid msg.token msg.zone_id) c s b)
          ])

  taken_over :
      (env : Env) (msg : ReconnectRequest) (c old : ℕ) (s : State n r)
      → Good c s
      → IsBound (take_over env msg c old s)
  unfolding take_over send_client_online_msg drop_client close
  taken_over env msg c old s (b, k) =
      let ds = (s.sessions old).disconnected_messages in
      let s1 = modify c (λ v. record v { disconnected_messages = ds }) s in
      let b1 =
        modify-IsBound c (λ v. record v { disconnected_messages = ds }) s (λ v. (refl, refl)) b in
      let sr = remove_client (s1.sessions old).conn_id s1 in
      let s2 = drop_client old s1 in
      let u2 : IsUnbound old s2 = drop_client-IsUnbound net old s1 b1 in
      let gr = removed (s1.sessions old).conn_id c s1 (b1, k) in
      let k2 : IsUnbound c s2 = unbind-IsUnbound_other (s1.sessions old).user_id old c sr gr.1 in
      let s0 = modify old (λ v. record v { user_id = 0 }) s2 in
      let b2 = drop_client-IsBound net old s1 b1 in
      let b0 : IsBound s0 = modify_unbound old (λ v. record v { user_id = 0 }) s2 u2 b2 in
      let s3 = (if n.is_closed (s2.sessions old).tcp then s2 else close old s0) in
      let g3 : Good c s3 =
        if_rule (Good c) (n.is_closed (s2.sessions old).tcp) (λ _. (b2, k2))
          (λ _. (close-IsBound net old s0 b0, k2)) in
      let s4 = on_user_verify msg.userid c s3 in
      let b4 = verify-IsBound msg.userid c s3 net g3.1 g3.0 in
      let s5 = send_client_online_msg env (s4.sessions old).world_server_id msg.version true c s4 in
      modify-IsBound c (λ v. record v { is_reconnection = true }) s5 (λ v. (refl, refl))
        (send_world-IsBound net (s4.sessions old).world_server_id client_online_id
          (client_online_body (s4.sessions c).user_id true (s4.sessions c).remote_ip env.tcp_address
            msg.version)
          s4 b4)

  pub reconnection_handler-IsBound :
      (env : Env) (msg : ReconnectRequest) (c : ℕ) (s : State n r)
      → n.verified (s.sessions c).tcp ≡ false
      → IsBound s
      → IsBound (reconnection_handler env msg c s)
  unfolding reconnection_handler
  reconnection_handler-IsBound env msg c s v b =
      elim (Option-cases (reconnection_error env msg c s)) [
        | inl e ↦ elim (Option-cases (get_client_by_user_id msg.userid s)) [
          | inl f ↦ rw (e, f, reconnection_handler) b
          | inr (old, f) ↦
              rw (e, f, reconnection_handler)
                (if_rule IsBound (c == old)
                  (λ _. send_msg-IsBound net sc_reconnection (reconnection_body success) c s b)
                  (λ _. taken_over env msg c old s (b, not_verified c s b v)))
        ]
        | inr (code, e) ↦
            rw (e, reconnection_handler)
              (send_msg-IsBound net sc_reconnection (reconnection_body code) c s b)
      ]
