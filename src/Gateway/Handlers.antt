-- ===== src/Gateway/Handlers.antt =====
-- server/gateway/client/{session,session_impl,session_handler}.go: a client's connection, its
-- requests, and the limit on its requests. A message that does not decode changes nothing, so the
-- handlers take the decoded message.
use greatestworks.Base.{
  Bool, Option, String, String_discrete, [], false, if◌then◌else◌, is_empty_str, ite, none, some,
  true, ℕ, ◌==◌, ◌||◌,
}
use greatestworks.Base.Int.{pos, ℤ, ℤ_discrete}
use greatestworks.Gateway.Clients.{
  add_client, bind_user_id2_client, close, drop_client, get_client_by_user_id, remove_client,
  send_client_online_msg, send_last_msg, send_msg, unbind_user_id2_client,
}
use greatestworks.Gateway.Network.{
  Code, Network, Redis, being_re_conn, gateway_repeated_verify, gateway_verify, join_zone_id_error,
  kick_body, login_body, lose_cur_con, reconnection_body, sc_gateway_login, sc_kick,
  sc_reconnection, success, verify_error, zone_id_error,
}
use greatestworks.Gateway.State.{Env, Session, State, modify}

pub record LoginRequest : Type 0 where
  pub userid : ℕ
  pub token : String
  pub zone_id : ℤ

pub record JoinRequest : Type 0 where
  pub sid : String
  pub zone_id : ℤ
  pub quick : Bool
  pub version : String

pub record ReconnectRequest : Type 0 where
  pub userid : ℕ
  pub token : String
  pub zone_id : ℤ
  pub version : String

-- NewSession and Init, on a connection.
unfoldable pub new_session : {n : Network} → Env → n.Tcp → ℤ → Session n
new_session env tcp conn_id = record {
  tcp = tcp;
  conn_id = conn_id;
  user_id = 0;
  world_server_id = "";
  is_bind_world_server = false;
  join_world_server_id = "";
  is_disconnected = false;
  disconnected_time = env.now;
  disconnected_messages = [];
  is_reconnection = false;
  remote_ip = "";
  last_ping_time = env.now;
  last_check_time = env.unix;
  request_speed = pos 0;
  req_frequency = pos 0;
  registered = none;
  proc_index = 0;
}

-- msg.Token == "" || ret.Val() == "" || ret.Val() != msg.Token
abbrev pub is_wrong_token : String → String → Bool
is_wrong_token token val =
    is_empty_str token || is_empty_str val || ite (String_discrete val token) false true

abbrev pub is_same : ℕ → Option ℕ → Bool
is_same c none = false
is_same c (some d) = c == d

abbrev pub is_this_gateway : Env → Option String → Bool
is_this_gateway env none = false
is_this_gateway env (some a) = ite (String_discrete a env.tcp_address) true false

module _ {n : Network} {r : Redis} where
  unfoldable pub on_connect : String → ℕ → State n r → State n r
  unfolding add_client
  on_connect remote_ip c s =
      modify c (λ v. record v { remote_ip = remote_ip }) (add_client (s.sessions c).conn_id c s)

  unfoldable pub on_close : Env → ℕ → State n r → State n r
  unfolding drop_client
  on_close env c s =
      if (s.sessions c).user_id == 0
      then drop_client c s
      else modify c (λ v. record v { is_disconnected = true; disconnected_time = env.now }) s

  unfoldable pub on_user_verify : ℕ → ℕ → State n r → State n r
  unfolding bind_user_id2_client
  on_user_verify user_id c s =
      modify c (λ v. record v { tcp = n.verify v.tcp })
        (bind_user_id2_client user_id c (modify c (λ v. record v { user_id = user_id }) s))

  -- The part of loginHandler on another session of the same user.
  unfoldable pub replace_client : ℕ → ℕ → State n r → State n r
  unfolding unbind_user_id2_client send_last_msg remove_client
  replace_client c old s =
      let s' = unbind_user_id2_client (s.sessions old).user_id old s in
      let online_id = (s'.sessions old).world_server_id in
      let s'' =
        (if is_empty_str online_id
          then s'
          else modify old (λ v. record v { user_id = 0; world_server_id = "" })
              (modify c (λ v. record v { world_server_id = online_id }) s')) in
      let s''' = send_last_msg sc_kick kick_body old s'' in
      remove_client (s'''.sessions old).conn_id s'''

  unfoldable pub admit_client : Env → LoginRequest → ℕ → State n r → State n r
  unfolding on_user_verify send_msg
  admit_client env msg c s =
      let s' =
        send_msg sc_gateway_login (login_body success msg.userid msg.token msg.zone_id) c
          (on_user_verify msg.userid c s) in
      record s' { redis = r.add_user env.tcp_address msg.userid s'.redis }

  -- The error that loginHandler answers, if any.
  unfoldable pub login_error : Env → LoginRequest → ℕ → State n r → Option Code
  unfolding get_client_by_user_id
  login_error env msg c s =
      ite (ℤ_discrete msg.zone_id env.zone_id)
        (if is_wrong_token msg.token (r.token s.redis msg.userid)
          then some gateway_verify
          else if is_same c (get_client_by_user_id msg.userid s)
          then some gateway_repeated_verify
          else if is_this_gateway env (r.account_gateway s.redis msg.userid)
          then none
          else some gateway_verify)
        (some zone_id_error)

  unfoldable pub login_handler : Env → LoginRequest → ℕ → State n r → State n r
  unfolding login_error get_client_by_user_id replace_client admit_client send_msg
  login_handler env msg c s =
      if n.verified (s.sessions c).tcp then s else elim (login_error env msg c s) [
        | some code ↦
            send_msg sc_gateway_login (login_body code msg.userid msg.token msg.zone_id) c s
        | none ↦ elim (get_client_by_user_id msg.userid s) [
          | none ↦ admit_client env msg c s
          | some old ↦ admit_client env msg c (replace_client c old s)
        ]
      ]

  -- reconnectionHandler
  unfoldable pub reconnection_error : Env → ReconnectRequest → ℕ → State n r → Option Code
  unfolding get_client_by_user_id
  reconnection_error env msg c s =
      ite (ℤ_discrete msg.zone_id env.zone_id)
        (if (s.sessions c).is_reconnection
          then some being_re_conn
          else if is_wrong_token msg.token (r.token s.redis msg.userid)
          then some verify_error
          else elim (get_client_by_user_id msg.userid s) [
            | none ↦ some lose_cur_con
            | some d ↦ none
          ])
        (some join_zone_id_error)

  unfoldable pub take_over : Env → ReconnectRequest → ℕ → ℕ → State n r → State n r
  unfolding remove_client unbind_user_id2_client close on_user_verify send_client_online_msg
  take_over env msg c old s =
      let s1 =
        modify c (λ v. record v { disconnected_messages = (s.sessions old).disconnected_messages })
          s in
      let s2 =
        unbind_user_id2_client (s1.sessions old).user_id old
          (remove_client (s1.sessions old).conn_id s1) in
      let s3 =
        (if n.is_closed (s2.sessions old).tcp
          then s2
          else close old (modify old (λ v. record v { user_id = 0 }) s2)) in
      let s4 = on_user_verify msg.userid c s3 in
      modify c (λ v. record v { is_reconnection = true })
        (send_client_online_msg env (s4.sessions old).world_server_id msg.version true c s4)

  unfoldable pub reconnection_handler : Env → ReconnectRequest → ℕ → State n r → State n r
  unfolding reconnection_error get_client_by_user_id take_over send_msg
  reconnection_handler env msg c s = elim (reconnection_error env msg c s) [
    | some code ↦ send_msg sc_reconnection (reconnection_body code) c s
    | none ↦ elim (get_client_by_user_id msg.userid s) [
      | none ↦ s
      | some old ↦
          if c == old
          then send_msg sc_reconnection (reconnection_body success) c s
          else take_over env msg c old s
    ]
  ]
