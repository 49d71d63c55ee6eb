-- ===== src/Gateway/Requests.antt =====
-- The other requests of session_handler.go: the list of worlds, joining a world, the heartbeat, the
-- logout; the limit on requests in session.go.
use greatestworks.Base.{
  Bool, List, Option, String, String_discrete, [], false, if◌then◌else◌, is_empty_str, ite, leb,
  none, not, some, true, ℕ, ◌&&◌, ◌/◌, ◌||◌, ◌∷◌,
}
use greatestworks.Base.Float32.{Float32}
use greatestworks.Base.Int.{ltb_ℤ, pos, pos_part, wrap_int, wrap_int32, ℤ, ℤ_discrete, ◌+ℤ◌, ◌-ℤ◌}
use greatestworks.Base.SyncMap.{load}
use greatestworks.Gateway.Clients.{
  offline_if_in_world, remove_gateway_user, send_client_offline_msg, send_client_online_msg,
  send_msg,
}
use greatestworks.Gateway.Handlers.{JoinRequest, is_wrong_token}
use greatestworks.Gateway.Network.{
  Code, MessageId, Network, OnlineEntry, Redis, heartbeat_body, join_error_body, join_world_ing,
  join_world_is_full, join_world_not_open, join_zone_id_error, sc_gateway_join_world,
  sc_gateway_login, sc_gateway_world_list, scene_heartbeat, world_list_body,
}
use greatestworks.Gateway.State.{Env, Session, State, WorldSession, is_in_white_list, modify, put}
use greatestworks.Gateway.Worlds.{get_optimal_online, get_session_list}

abbrev pub online_entry : {n : Network} → WorldSession n → OnlineEntry
online_entry w = record {
  sid = w.session_id;
  players = w.players;
  pro_id = w.pro_index;
  name = w.name;
  max = w.max_player;
  zone_id = wrap_int32 w.zone_id;
}

abbrev pub online_entries : {n : Network} → List (WorldSession n) → List OnlineEntry
online_entries [] = []
online_entries (w ∷ ws) = online_entry w ∷ online_entries ws

-- The text of a user's number, strconv.FormatInt, is an argument.
abbrev pub is_let_in : Env → String → String → Bool
is_let_in env uid remote_ip =
    env.is_open_now
    || is_in_white_list remote_ip env.ip_white_list
    || is_in_white_list uid env.uid_white_list

-- The averages that HandleMessage computes: / in Go rounds towards 0, and the amounts are not
-- negative.
abbrev pub per_second : ℤ → ℤ → ℕ
per_second amount delta = pos_part amount / pos_part delta

-- The first part of Session.HandleMessage: the session after the count, and whether the message
-- is to be routed. `size` is the length of the message.
abbrev pub counted : {n : Network} → ℕ → Session n → Session n
counted size v = record v {
  request_speed = wrap_int (v.request_speed +ℤ pos size);
  req_frequency = wrap_int (v.req_frequency +ℤ pos 1);
}

abbrev pub is_flooding : {n : Network} → ℤ → Session n → Bool
is_flooding delta v =
    leb 5120 (per_second v.request_speed delta) || leb 30 (per_second v.req_frequency delta)

unfoldable pub limit_requests : {n : Network} → Env → ℕ → Session n → Session n × Bool
unfolding wrap_int ◌+ℤ◌ ◌-ℤ◌
limit_requests {n = n} env size v =
    let delta = env.unix -ℤ v.last_check_time in
    let v' = counted size v in
    let reset = record v' {
      last_check_time = env.unix;
      request_speed = pos 0;
      req_frequency = pos 0;
    } in
    if ltb_ℤ delta (pos 30)
    then (v', true)
    else if is_flooding delta v'
    then (record reset { tcp = n.close reset.tcp }, false)
    else (reset, true)

module _ {n : Network} {r : Redis} where
  unfoldable pub online_server_list_handler : Env → ℤ → ℕ → State n r → State n r
  unfolding get_session_list send_msg
  online_server_list_handler env zone_id c s =
      if n.verified (s.sessions c).tcp
      then (if ltb_ℤ (pos 0) zone_id && ite (ℤ_discrete zone_id env.zone_id) false true
          then s
          else send_msg sc_gateway_world_list
              (world_list_body (online_entries (get_session_list s))) c s)
      else s

  -- The id of the world that is asked for.
  abbrev pub wanted_sid : Float32 → ℕ → JoinRequest → State n r → String
  wanted_sid fl i msg s =
      if msg.quick
      then elim (get_optimal_online fl i s) [ none ↦ msg.sid | some sid ↦ sid ]
      else msg.sid

  -- The error that joinOnlineHandler answers, with the id of the message that carries it.
  abbrev pub join_error :
      Env → String → String → JoinRequest → String → ℕ → State n r → Option (MessageId × Code)
  join_error env uid remote_ip msg sid c s =
      if not (is_let_in env uid remote_ip)
      then some (sc_gateway_join_world, join_world_not_open)
      else ite (ℤ_discrete msg.zone_id env.zone_id)
          (elim (load String_discrete sid s.endpoints) [
            | none ↦ some (sc_gateway_join_world, join_world_not_open)
            | some w ↦
                if not (is_empty_str (s.sessions c).join_world_server_id)
                then some (sc_gateway_join_world, join_world_ing)
                else if ltb_ℤ (s.worlds w).players (s.worlds w).max_player
                then none
                else some (sc_gateway_join_world, join_world_is_full)
          ])
          (some (sc_gateway_login, join_zone_id_error))

  unfoldable pub enter_world : Env → String → ℕ → String → State n r → State n r
  unfolding send_client_online_msg send_client_offline_msg
  enter_world env version c session_id s =
      let s' = modify c (λ v. record v { join_world_server_id = session_id }) s in
      if is_empty_str (s.sessions c).world_server_id
      then send_client_online_msg env session_id version false c s'
      else modify c (λ v. record v { world_server_id = "" })
          (send_client_offline_msg 2 (s.sessions c).world_server_id c s')

  unfoldable pub join_online_handler :
      Float32 → ℕ → Env → String → String → JoinRequest → ℕ → State n r → State n r
  unfolding get_optimal_online send_msg enter_world
  join_online_handler fl i env uid remote_ip msg c s =
      let sid = wanted_sid fl i msg s in
      if n.verified (s.sessions c).tcp
      then elim (join_error env uid remote_ip msg sid c s) [
        | some (cmd, code) ↦ send_msg cmd (join_error_body code (s.sessions c).user_id) c s
        | none ↦ elim (load String_discrete sid s.endpoints) [
          | none ↦ s
          | some w ↦ enter_world env msg.version c (s.worlds w).session_id s
        ]
      ]
      else s

  unfoldable pub scene_heartbeat_handler : Env → ℕ → State n r → State n r
  unfolding send_msg
  scene_heartbeat_handler env c s =
      modify c (λ v. record v { last_ping_time = env.now })
        (send_msg scene_heartbeat (heartbeat_body env.unix) c s)

  unfoldable pub logout_handler : Env → ℕ → String → ℕ → State n r → State n r
  unfolding offline_if_in_world
  logout_handler env userid token c s =
      if n.verified (s.sessions c).tcp && not (is_wrong_token token (r.token s.redis userid))
      then remove_gateway_user env c (offline_if_in_world c s)
      else s

  -- The rest: the routers, which are third-party, say whether they have routed the message.
  unfoldable pub handle_message :
      Env
      → ℕ
      → (State n r → State n r × Bool)
      → (String → ℕ → State n r → State n r × Bool)
      → ℕ
      → State n r
      → State n r
  unfolding limit_requests
  handle_message env size route forward_route c s =
      let (v, go_on) = limit_requests env size (s.sessions c) in
      let s' = put c v s in
      let (s'', routed) = route s' in
      let (s''', forwarded) =
        forward_route (s''.sessions c).world_server_id (s''.sessions c).user_id s'' in
      let pinged = λ (t : State n r). modify c (λ v. record v { last_ping_time = env.now }) t in
      if not go_on
      then s'
      else if routed
      then pinged s''
      else if n.verified (s''.sessions c).tcp
      then (if forwarded then pinged s''' else s''')
      else s''
