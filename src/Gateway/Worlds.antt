-- ===== src/Gateway/Worlds.antt =====
-- server/gateway/world/{manager,session,session_handler}.go: the worlds that are registered at the
-- gateway, and their messages. A message that does not decode changes nothing.
use greatestworks.Base.{
  Bool, List, Option, Outcome, String, String_discrete, [], false, get_elem?, if◌then◌else◌,
  is_empty_str, ite, leb, length, ltb, none, not, returns, some, ℕ, ◌%◌, ◌&&◌, ◌++◌, ◌==◌, ◌∷◌,
}
use greatestworks.Base.Float32.{Float32}
use greatestworks.Base.Int.{ltb_ℤ, pos, ℤ, ℤ_discrete}
use greatestworks.Base.SyncMap.{SyncMap, delete, load, store}
use greatestworks.Gateway.Clients.{
  client_logout, get_client_by_user_id, send_client_online_msg, send_msg_to_world_server,
}
use greatestworks.Gateway.Messages.{
  broadcast_msg, broadcast_msg_srv, client_online, send_msg_to_client, world_server_disconnected,
}
use greatestworks.Gateway.Network.{
  ChatMsg, ClientOfflineRet, ClientOnlineRet, Network, Redis, chat_body, forward_body,
  gateway_forward_packet, register_body, register_to_gateway_ret, sc_cross_srv_chat_msg,
  update_body,
}
use greatestworks.Gateway.State.{Env, State, WorldSession, put_world}

-- sort.Slice by the index, which leaves the order of equal indices open: by insertion here.
abbrev pub insert_session :
    {n : Network} → WorldSession n → List (WorldSession n) → List (WorldSession n)
insert_session v [] = v ∷ []
insert_session v (w ∷ ws) =
    let rest = insert_session v ws in if leb v.pro_index w.pro_index then v ∷ w ∷ ws else w ∷ rest

abbrev pub sort_sessions : {n : Network} → List (WorldSession n) → List (WorldSession n)
sort_sessions [] = []
sort_sessions (v ∷ vs) = insert_session v (sort_sessions vs)

-- How `GetOptimalOnline` classes a world.
pub data Load : Type 0 where
  idle busy hot unavailable : Load

pub Load-discrete : Discrete Load
Load-discrete = hlevel

unfoldable pub load_of : Float32 → {n : Network} → WorldSession n → Load
load_of fl w =
    let rate =
      fl.mul (fl.div (fl.of_int w.players) (fl.of_int w.max_player)) (fl.of_int (pos 100)) in
    if fl.lt rate (fl.of_int (pos 100)) && fl.lt (fl.of_int (pos 80)) rate
    then hot
    else if fl.le rate (fl.of_int (pos 80)) && fl.lt (fl.of_int (pos 40)) rate
    then busy
    else if fl.le rate (fl.of_int (pos 40))
    then idle
    else unavailable

abbrev pub of_load : Float32 → {n : Network} → Load → List (WorldSession n) → List (WorldSession n)
of_load fl l [] = []
of_load fl l (w ∷ ws) =
    let rest = of_load fl l ws in ite (Load-discrete (load_of fl w) l) (w ∷ rest) rest

-- list[rand.Int()%len(list)].SessionId
abbrev pub picked : {n : Network} → ℕ → List (WorldSession n) → Option String
picked r ws = elim (get_elem? ws (r % length ws)) [ none ↦ none | some w ↦ some w.session_id ]

abbrev pub picked_of : Float32 → {n : Network} → ℕ → List (WorldSession n) → Option String
picked_of fl r ws =
    if ltb 0 (length (of_load fl busy ws))
    then picked r (of_load fl busy ws)
    else if ltb 0 (length (of_load fl idle ws))
    then picked r (of_load fl idle ws)
    else if ltb 0 (length (of_load fl hot ws))
    then picked r (of_load fl hot ws)
    else none

pub record RegisterRequest : Type 0 where
  pub token : String
  pub zone_id : ℤ
  pub is_world : Bool  -- ServerType is ServerCategory_World
  pub server_id : String
  pub server_addr : String
  pub msg_ids : List ℕ
  pub proc_index : ℕ
  pub name : String
  pub max_player : ℤ

pub record ForwardPacket : Type 0 where
  pub userid : ℕ
  pub row : List ℕ
  pub player_number : ℤ

module _ {n : Network} {r : Redis} where
  abbrev pub sessions_of : SyncMap String ℕ → State n r → List (WorldSession n)
  sessions_of [] s = []
  sessions_of ((k, w) ∷ m) s = s.worlds w ∷ sessions_of m s

  unfoldable pub get_session_list : State n r → List (WorldSession n)
  get_session_list s = sort_sessions (sessions_of s.endpoints s)

  -- `none` stands for the result ("", false).
  unfoldable pub get_optimal_online : Float32 → ℕ → State n r → Option String
  unfolding get_session_list
  get_optimal_online fl i s = picked_of fl i (get_session_list s)

  abbrev pub modify_world : ℕ → (WorldSession n → WorldSession n) → State n r → State n r
  modify_world w f s = put_world w (f (s.worlds w)) s

  abbrev pub close_world : ℕ → State n r → State n r
  close_world w s = modify_world w (λ v. record v { tcp = n.close v.tcp }) s

  unfoldable pub add_session : String → String → List ℕ → ℕ → ℕ → ℤ → State n r → State n r
  add_session srv_id address msg_ids sc pro_index zone_id s =
      let s' : State n r = elim (load String_discrete srv_id s.endpoints) [
        | none ↦ s
        | some old ↦ if old == sc then s else close_world old s
      ] in
      let s'' =
        modify_world sc
          (λ v. record v {
            server_addr = address;
            session_id = srv_id;
            pro_index = pro_index;
            zone_id = zone_id;
            handle_messages = v.handle_messages ++ msg_ids;
          })
          s' in
      record s'' { endpoints = store String_discrete srv_id sc s''.endpoints }

  unfoldable pub remove_server_client : String → State n r → State n r
  unfolding world_server_disconnected
  remove_server_client srv_id s = elim (load String_discrete srv_id s.endpoints) [
    | none ↦ s
    | some w ↦
        world_server_disconnected srv_id s.clients
          (record s { endpoints = delete String_discrete srv_id s.endpoints })
  ]

  -- Session.OnClose of a world
  unfoldable pub on_world_close : ℕ → State n r → State n r
  unfolding remove_server_client
  on_world_close w s =
      if is_empty_str (s.worlds w).session_id
      then s
      else remove_server_client (s.worlds w).session_id s

  unfoldable pub world_msg_handler : String → ℕ → List ℕ → State n r → State n r
  unfolding send_msg_to_world_server
  world_msg_handler srv_id user_id row s =
      (send_msg_to_world_server srv_id gateway_forward_packet (forward_body user_id row) s).0

  unfoldable pub register_handler : Env → RegisterRequest → ℕ → State n r → State n r
  unfolding add_session
  register_handler env msg w s =
      let s' =
        (if msg.is_world
          then add_session msg.server_id msg.server_addr msg.msg_ids w msg.proc_index msg.zone_id s
          else s) in
      ite (String_discrete msg.token "greatest_works")
        (ite (ℤ_discrete msg.zone_id env.zone_id)
          (modify_world w
            (λ v. record v {
              name = msg.name;
              max_player = msg.max_player;
              tcp =
                  (n.async_send register_to_gateway_ret (register_body msg.zone_id)
                    (n.verify v.tcp)).0;
            })
            s')
          s)
        s

  unfoldable pub update_handler : ℤ → ℕ → State n r → State n r
  update_handler max_player w s =
      modify_world w
        (λ v. record v {
          max_player = max_player;
          tcp = (n.async_send register_to_gateway_ret update_body v.tcp).0;
        })
        s

  unfoldable pub broadcast_chat_msg_handler : ChatMsg → State n r → Outcome (State n r)
  unfolding broadcast_msg_srv broadcast_msg
  broadcast_chat_msg_handler msg s =
      if msg.message_type == 2
      then broadcast_msg_srv sc_cross_srv_chat_msg msg s.clients s
      else returns (broadcast_msg sc_cross_srv_chat_msg (chat_body msg) s.clients s)

  unfoldable pub client_online_handler : ClientOnlineRet → ℕ → State n r → State n r
  unfolding client_online
  client_online_handler msg w s =
      client_online msg (s.worlds w).session_id
        (modify_world w (λ v. record v { players = msg.players }) s)

  unfoldable pub client_offline_handler : Env → ClientOfflineRet → ℕ → State n r → State n r
  unfolding get_client_by_user_id client_logout send_client_online_msg
  client_offline_handler env msg w s =
      let s' = modify_world w (λ v. record v { players = msg.players }) s in
      if not (msg.result == 1) then s else elim (get_client_by_user_id msg.userid s') [
        | none ↦ s'
        | some c ↦
            if msg.op_type == 1
            then client_logout env c s'
            else send_client_online_msg env (s'.sessions c).join_world_server_id msg.version false c
                s'
      ]

  unfoldable pub gateway_forward_packet_handler : Env → ForwardPacket → ℕ → State n r → State n r
  unfolding get_client_by_user_id send_msg_to_client
  gateway_forward_packet_handler env msg w s = elim (get_client_by_user_id msg.userid s) [
    | none ↦ s
    | some c ↦
        (let s' = (send_msg_to_client env msg.userid msg.row s).0 in
          if (s.sessions c).is_bind_world_server
          then (if ltb_ℤ msg.player_number (pos 0)
              then s'
              else modify_world w (λ v. record v { players = msg.player_number }) s')
          else s)
  ]
