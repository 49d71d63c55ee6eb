-- ===== src/Gateway/Handover.antt =====
-- Two cases in which a newer connection loses: a world that registers again, and a client that
-- reconnects as another user.
use greatestworks.Base.{
  List, String, String_discrete, [], ap, arith, if_rule, if◌then◌else◌, ite, ite_rule, none, refl,
  some, true, ℕ, ℕ_discrete, ◌∙◌, ◌∷◌, ◌≡◌, ◌≢◌,
}
use greatestworks.Base.Int.{ℤ}
use greatestworks.Base.SyncMap.{SyncMap, delete, load, load-delete, load-store}
use greatestworks.Gateway.Cache.{reconnection_takes_over, send_online_lem, take_over_lem}
use greatestworks.Gateway.Clients.{
  bind_user_id2_client, close, drop_client, get_client_by_user_id, remove_client,
  unbind_user_id2_client,
}
use greatestworks.Gateway.Handlers.{
  ReconnectRequest, on_user_verify, reconnection_error, reconnection_handler, take_over,
}
use greatestworks.Gateway.Messages.{world_server_disconnected}
use greatestworks.Gateway.Network.{Network, Redis}
use greatestworks.Gateway.State.{Env, State, modify}
use greatestworks.Gateway.Worlds.{add_session, on_world_close, remove_server_client}

module _ {n : Network} {r : Redis} where
  endpoints-drop_client : (c : ℕ) (s : State n r) → (drop_client c s).endpoints ≡ s.endpoints
  unfolding drop_client remove_client unbind_user_id2_client
  endpoints-drop_client c s = ground arith

  endpoints-disconnected :
      (id : String) (m : SyncMap ℤ ℕ) (s : State n r)
      → (world_server_disconnected id m s).endpoints ≡ s.endpoints
  unfolding world_server_disconnected close
  endpoints-disconnected id [] s = refl
  endpoints-disconnected id ((k, c) ∷ m) s =
      let t =
        ite (String_discrete (s.sessions c).world_server_id id)
          (close c (modify c (λ v. record v { user_id = 0 }) (drop_client c s))) s in
      endpoints-disconnected id m t
      ∙ ite_rule (λ (u : State n r). u.endpoints ≡ s.endpoints)
          (String_discrete (s.sessions c).world_server_id id) (λ _. endpoints-drop_client c s)
          (λ _. refl)

  worlds-drop_client : (c : ℕ) (s : State n r) → (drop_client c s).worlds ≡ s.worlds
  unfolding drop_client remove_client unbind_user_id2_client
  worlds-drop_client c s = ground arith

  worlds-disconnected :
      (id : String) (m : SyncMap ℤ ℕ) (s : State n r)
      → (world_server_disconnected id m s).worlds ≡ s.worlds
  unfolding world_server_disconnected close
  worlds-disconnected id [] s = refl
  worlds-disconnected id ((k, c) ∷ m) s =
      let t =
        ite (String_discrete (s.sessions c).world_server_id id)
          (close c (modify c (λ v. record v { user_id = 0 }) (drop_client c s))) s in
      worlds-disconnected id m t
      ∙ ite_rule (λ (u : State n r). u.worlds ≡ s.worlds)
          (String_discrete (s.sessions c).world_server_id id) (λ _. worlds-drop_client c s)
          (λ _. refl)

  add_session_lem :
      (srv_id address : String) (ids : List ℕ) (old new pro : ℕ) (zone : ℤ) (s : State n r)
      → load String_discrete srv_id s.endpoints ≡ some old
      → old ≢ new
      → let t = add_session srv_id address ids new pro zone s in
        (load String_discrete srv_id t.endpoints ≡ some new)
        × ((t.worlds old).session_id ≡ (s.worlds old).session_id)
        × ((t.worlds old).tcp ≡ n.close (s.worlds old).tcp)
        × ((t.worlds new).tcp ≡ (s.worlds new).tcp)
  unfolding add_session
  add_session_lem srv_id address ids old new pro zone s e o =
      ground (arith, e, o, load-store String_discrete srv_id srv_id new s.endpoints)

  closed_world :
      (srv_id : String) (w d : ℕ) (s : State n r)
      → srv_id ≢ ""
      → (s.worlds w).session_id ≡ srv_id
      → load String_discrete srv_id s.endpoints ≡ some d
      → load String_discrete srv_id (on_world_close w s).endpoints ≡ none
  unfolding on_world_close remove_server_client
  closed_world srv_id w d s h k e =
      let left = record s { endpoints = delete String_discrete srv_id s.endpoints } in
      ground (
        arith,
        h,
        k,
        e,
        endpoints-disconnected srv_id s.clients left,
        load-delete String_discrete srv_id srv_id s.endpoints,
      )

  closed_world-worlds : (w : ℕ) (s : State n r) → (on_world_close w s).worlds ≡ s.worlds
  unfolding on_world_close remove_server_client
  closed_world-worlds w s =
      let id = (s.worlds w).session_id in
      ground (
        arith,
        worlds-disconnected id s.clients
            (record s { endpoints = delete String_discrete id s.endpoints }),
      )

  -- A world that registers on a new connection, under an id that is not empty, while the old one is
  -- still there: `AddSession` closes the old TCP session, leaves the new one as it is, and registers
  -- the new one. Once the `OnClose` of the old one runs, the id is not registered any more, although
  -- the new TCP session is still as it was.
  pub add_session_loses :
      (srv_id address : String) (ids : List ℕ) (old new pro : ℕ) (zone : ℤ) (s : State n r)
      → srv_id ≢ ""
      → load String_discrete srv_id s.endpoints ≡ some old
      → (s.worlds old).session_id ≡ srv_id
      → old ≢ new
      → let t = add_session srv_id address ids new pro zone s in
        let t' = on_world_close old t in
        ((t.worlds old).tcp ≡ n.close (s.worlds old).tcp)
        × ((t.worlds new).tcp ≡ (s.worlds new).tcp)
        × (load String_discrete srv_id t.endpoints ≡ some new)
        × (load String_discrete srv_id t'.endpoints ≡ none)
        × ((t'.worlds new).tcp ≡ (s.worlds new).tcp)
  add_session_loses srv_id address ids old new pro zone s h e k o =
      let t = add_session srv_id address ids new pro zone s in
      let (a, b, c, d) = add_session_lem srv_id address ids old new pro zone s e o in
      (
        c,
        d,
        a,
        closed_world srv_id old new t h (b ∙ k) a,
        ap (λ ws. (ws new).tcp) (closed_world-worlds old t) ∙ d,
      )

  kept_binding :
      (u c old : ℕ) (s : State n r)
      → c ≢ old
      → get_client_by_user_id u s ≡ some c
      → get_client_by_user_id u (drop_client old s) ≡ some c
  unfolding drop_client remove_client unbind_user_id2_client get_client_by_user_id
  kept_binding u c old s o k =
      ground (arith, o, k, load-delete ℕ_discrete (s.sessions old).user_id u s.userid2clients)

  verified_binding :
      (v u c : ℕ) (s : State n r)
      → get_client_by_user_id u s ≡ some c
      → get_client_by_user_id u (on_user_verify v c s) ≡ some c
  unfolding on_user_verify bind_user_id2_client get_client_by_user_id
  verified_binding v u c s k = ground (arith, k, load-store ℕ_discrete v u c s.userid2clients)

  taken_binding :
      (env : Env) (msg : ReconnectRequest) (u c old : ℕ) (s : State n r)
      → c ≢ old
      → get_client_by_user_id u s ≡ some c
      → get_client_by_user_id u (take_over env msg c old s) ≡ some c
  unfolding take_over drop_client close get_client_by_user_id
  taken_binding env msg u c old s o k =
      let ds = (s.sessions old).disconnected_messages in
      let s1 = modify c (λ v. record v { disconnected_messages = ds }) s in
      let s2 = drop_client old s1 in
      let s3 =
        (if n.is_closed (s2.sessions old).tcp
          then s2
          else close old (modify old (λ v. record v { user_id = 0 }) s2)) in
      let s4 = on_user_verify msg.userid c s3 in
      let k3 : get_client_by_user_id u s3 ≡ some c =
        if_rule (λ (t : State n r). get_client_by_user_id u t ≡ some c)
          (n.is_closed (s2.sessions old).tcp) (λ _. kept_binding u c old s1 o k)
          (λ _. kept_binding u c old s1 o k) in
      let (ou, oe, os) =
        send_online_lem env (s4.sessions old).world_server_id msg.version true c s4 in
      ap (λ m. load ℕ_discrete u m) ou ∙ verified_binding msg.userid u c s3 k3

  -- A client that is bound to one user and reconnects with the token of another user, who has
  -- another session here, is bound to both afterwards: `reconnectionHandler` does not ask whether
  -- the session has logged in already.
  pub reconnection_binds_twice :
      (env : Env) (msg : ReconnectRequest) (u c old : ℕ) (s : State n r)
      → reconnection_error env msg c s ≡ none
      → get_client_by_user_id msg.userid s ≡ some old
      → get_client_by_user_id u s ≡ some c
      → c ≢ old
      → let t = reconnection_handler env msg c s in
        (get_client_by_user_id u t ≡ some c) × (get_client_by_user_id msg.userid t ≡ some c)
  reconnection_binds_twice env msg u c old s e h k o =
      rw (reconnection_takes_over env msg c old s e h o)
        (taken_binding env msg u c old s o k, (take_over_lem env msg c old s o).0)
