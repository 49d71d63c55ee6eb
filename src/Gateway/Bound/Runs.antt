-- ===== src/Gateway/Bound/Runs.antt =====
-- The events of the gateway as a step relation, and what holds after any number of them.
use greatestworks.Base.{String, [], arith, false, some, sym, true, ℕ, ◌∙◌, ◌≡◌}
use greatestworks.Base.Float32.{Float32}
use greatestworks.Base.Int.{ℤ}
use greatestworks.Gateway.Bound.{IsBound, IsUnbound}
use greatestworks.Gateway.Bound.Handlers.{login_handler-IsBound, reconnection_handler-IsBound}
use greatestworks.Gateway.Bound.Manager.{
  broadcast_msg-IsBound, client_online-IsBound, disconnected_check-IsBound, kick_all-IsBound,
}
use greatestworks.Gateway.Bound.Others.{
  forward-IsBound, heartbeat-IsBound, join-IsBound, limit-IsBound, list-IsBound, logout-IsBound,
  offline_ret-IsBound, on_close-IsBound, on_connect-IsBound, register-IsBound, world_close-IsBound,
}
use greatestworks.Gateway.Clients.{get_client_by_user_id}
use greatestworks.Gateway.Handlers.{
  JoinRequest, LoginRequest, ReconnectRequest, login_handler, new_session, on_close, on_connect,
  reconnection_handler,
}
use greatestworks.Gateway.Messages.{broadcast_msg, disconnected_check, send_msg_to_all_player}
use greatestworks.Gateway.Network.{
  Body, ClientOfflineRet, ClientOnlineRet, IsNetwork, MessageId, Network, Redis, sc_kick,
}
use greatestworks.Gateway.Requests.{
  join_online_handler, limit_requests, logout_handler, online_server_list_handler,
  scene_heartbeat_handler,
}
use greatestworks.Gateway.State.{Env, State, put}
use greatestworks.Gateway.Worlds.{
  ForwardPacket, RegisterRequest, client_offline_handler, client_online_handler,
  gateway_forward_packet_handler, modify_world, on_world_close, register_handler, update_handler,
}

module _ {n : Network} {r : Redis} where
  -- One event: a connection that is accepted or closed, a request of a client, a message of a
  -- world, a timer. A reconnection comes on a session that has not logged in yet.
  pub data Step : State n r → State n r → Type 1 where
    connects :
        {s : State n r} (env : Env) (tcp : n.Tcp) (conn_id : ℤ) (ip : String) (c : ℕ)
        → IsUnbound c s
        → Step s (on_connect ip c (put c (new_session env tcp conn_id) s))
    closes : {s : State n r} (env : Env) (c : ℕ) → Step s (on_close env c s)
    logs_in :
        {s : State n r} (env : Env) (msg : LoginRequest) (c : ℕ)
        → Step s (login_handler env msg c s)
    reconnects :
        {s : State n r} (env : Env) (msg : ReconnectRequest) (c : ℕ)
        → n.verified (s.sessions c).tcp ≡ false
        → Step s (reconnection_handler env msg c s)
    joins :
        {s : State n r} (fl : Float32) (i : ℕ) (env : Env) (uid ip : String) (msg : JoinRequest)
        (c : ℕ)
        → Step s (join_online_handler fl i env uid ip msg c s)
    counts :
        {s : State n r} (env : Env) (size c : ℕ)
        → Step s (put c (limit_requests env size (s.sessions c)).0 s)
    lists :
        {s : State n r} (env : Env) (zone_id : ℤ) (c : ℕ)
        → Step s (online_server_list_handler env zone_id c s)
    beats : {s : State n r} (env : Env) (c : ℕ) → Step s (scene_heartbeat_handler env c s)
    logs_out :
        {s : State n r} (env : Env) (userid : ℕ) (token : String) (c : ℕ)
        → Step s (logout_handler env userid token c s)
    registers :
        {s : State n r} (env : Env) (msg : RegisterRequest) (w : ℕ)
        → Step s (register_handler env msg w s)
    updates : {s : State n r} (max : ℤ) (w : ℕ) → Step s (update_handler max w s)
    comes_online :
        {s : State n r} (msg : ClientOnlineRet) (w : ℕ) → Step s (client_online_handler msg w s)
    goes_offline :
        {s : State n r} (env : Env) (msg : ClientOfflineRet) (w : ℕ)
        → Step s (client_offline_handler env msg w s)
    forwards :
        {s : State n r} (env : Env) (msg : ForwardPacket) (w : ℕ)
        → Step s (gateway_forward_packet_handler env msg w s)
    world_closes : {s : State n r} (w : ℕ) → Step s (on_world_close w s)
    checks : {s : State n r} (env : Env) → Step s (disconnected_check env s.clients s)
    kicks :
        {s : State n r} (env : Env) (msg : Body)
        → Step s (send_msg_to_all_player env sc_kick msg s.clients s)
    broadcasts :
        {s : State n r} (cmd : MessageId) (msg : Body) → Step s (broadcast_msg cmd msg s.clients s)

  pub data Run : State n r → State n r → Type 1 where
    here : {s : State n r} → Run s s
    and_then : {s t u : State n r} → Run s t → Step t u → Run s u

  module _ (net : IsNetwork n) where
    Step-IsBound : {s t : State n r} → Step s t → IsBound s → IsBound t
    unfolding update_handler client_online_handler
    Step-IsBound {s = s} (connects env tcp conn_id ip c k) b =
        on_connect-IsBound net env tcp conn_id ip c s k b
    Step-IsBound {s = s} (closes env c) b = on_close-IsBound net env c s b
    Step-IsBound {s = s} (logs_in env msg c) b = login_handler-IsBound net env msg c s b
    Step-IsBound {s = s} (reconnects env msg c v) b =
        reconnection_handler-IsBound net env msg c s v b
    Step-IsBound {s = s} (joins fl i env uid ip msg c) b =
        join-IsBound net fl i env uid ip msg c s b
    Step-IsBound {s = s} (counts env size c) b = limit-IsBound net env size c s b
    Step-IsBound {s = s} (lists env zone_id c) b = list-IsBound net env zone_id c s b
    Step-IsBound {s = s} (beats env c) b = heartbeat-IsBound net env c s b
    Step-IsBound {s = s} (logs_out env u token c) b = logout-IsBound net env u token c s b
    Step-IsBound {s = s} (registers env msg w) b = register-IsBound net env msg w s b
    Step-IsBound {s = s} (updates max w) b = b
    Step-IsBound {s = s} (comes_online msg w) b =
        client_online-IsBound net msg (s.worlds w).session_id
          (modify_world w (λ v. record v { players = msg.players }) s) b
    Step-IsBound {s = s} (goes_offline env msg w) b = offline_ret-IsBound net env msg w s b
    Step-IsBound {s = s} (forwards env msg w) b = forward-IsBound net env msg w s b
    Step-IsBound {s = s} (world_closes w) b = world_close-IsBound net w s b
    Step-IsBound {s = s} (checks env) b = disconnected_check-IsBound net env s.clients s b
    Step-IsBound {s = s} (kicks env msg) b = kick_all-IsBound net env msg s.clients s b
    Step-IsBound {s = s} (broadcasts cmd msg) b = broadcast_msg-IsBound net cmd msg s.clients s b

    Run-IsBound : {s t : State n r} → Run s t → IsBound s → IsBound t
    Run-IsBound here b = b
    Run-IsBound (and_then h e) b = Step-IsBound e (Run-IsBound h b)

    -- After any events on a gateway that has bound no user, the client that a user's messages go to
    -- carries that user's number and has passed verification, and no client is bound to two users.
    -- A reconnection counts as an event on a session that has not logged in yet, and a session is
    -- new to the gateway when it connects.
    pub Run-get_client :
        {s t : State n r} (u v c : ℕ)
        → s.userid2clients ≡ []
        → Run s t
        → get_client_by_user_id u t ≡ some c
        → ((t.sessions c).user_id ≡ u)
          × (n.verified (t.sessions c).tcp ≡ true)
          × (get_client_by_user_id v t ≡ some c → u ≡ v)
    unfolding get_client_by_user_id
    Run-get_client u v c e h k =
        let b = Run-IsBound h (λ w d f. ground (arith, e)) in
        ((b u c k).0, (b u c k).1, λ l. sym (b u c k).0 ∙ (b v c l).0)
