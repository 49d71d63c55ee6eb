-- ===== src/Gateway/Entry.antt =====
-- Which worlds a client gets into, and which worlds get onto the gateway.
use greatestworks.Base.{
  Bool-cases, Option-cases, String, String_discrete, arith, inl, inr, none, some, true, ℕ, ◌≡◌, ◌≢◌,
}
use greatestworks.Base.Float32.{Float32}
use greatestworks.Base.Int.{ltb_ℤ}
use greatestworks.Base.SyncMap.{load}
use greatestworks.Gateway.Clients.{
  send_client_offline_msg, send_client_online_msg, send_msg, send_msg_to_world_server,
}
use greatestworks.Gateway.Handlers.{JoinRequest}
use greatestworks.Gateway.Network.{Network, Redis}
use greatestworks.Gateway.Requests.{
  enter_world, is_let_in, join_error, join_online_handler, wanted_sid,
}
use greatestworks.Gateway.State.{Env, State}

module _ {n : Network} {r : Redis} where
  join_error-none :
      (env : Env) (uid ip sid : String) (msg : JoinRequest) (c : ℕ) (s : State n r)
      → join_error env uid ip msg sid c s ≡ none
      → (is_let_in env uid ip ≡ true)
        × (msg.zone_id ≡ env.zone_id)
        × ((s.sessions c).join_world_server_id ≡ "")
        × ((w : ℕ) × (load String_discrete sid s.endpoints ≡ some w)
            × (ltb_ℤ (s.worlds w).players (s.worlds w).max_player ≡ true))
  join_error-none env uid ip sid msg c s e =
      elim (Option-cases (load String_discrete sid s.endpoints)) [
        | inl f ↦ absurd (ground (arith, e, f))
        | inr (w, f) ↦
            let (a, b, d, g) : (is_let_in env uid ip ≡ true)
                × (msg.zone_id ≡ env.zone_id)
                × ((s.sessions c).join_world_server_id ≡ "")
                × (ltb_ℤ (s.worlds w).players (s.worlds w).max_player ≡ true) =
              ground (arith, e, f) in
            (a, b, d, (w, f, g))
      ]

  enter_world_lem :
      (env : Env) (version id : String) (c : ℕ) (s : State n r)
      → ((enter_world env version c id s).sessions c).join_world_server_id ≡ id
  unfolding enter_world send_client_online_msg send_client_offline_msg send_msg_to_world_server
  enter_world_lem env version id c s = ground arith

  -- A client starts to join a world only if it has logged in, is let in, asks for this gateway's
  -- zone and is not joining another world already. The world is the one that it asks for, or the
  -- best one for a quick join, it is registered here, and it has room.
  pub join_safe :
      (fl : Float32) (i : ℕ) (env : Env) (uid ip : String) (msg : JoinRequest) (c : ℕ)
      (s : State n r)
      → let t = join_online_handler fl i env uid ip msg c s in
        (t.sessions c).join_world_server_id ≢ (s.sessions c).join_world_server_id
        → (n.verified (s.sessions c).tcp ≡ true)
          × (is_let_in env uid ip ≡ true)
          × (msg.zone_id ≡ env.zone_id)
          × ((s.sessions c).join_world_server_id ≡ "")
          × ((w : ℕ) × (load String_discrete (wanted_sid fl i msg s) s.endpoints ≡ some w)
              × (ltb_ℤ (s.worlds w).players (s.worlds w).max_player ≡ true)
              × (((join_online_handler fl i env uid ip msg c s).sessions c).join_world_server_id
                  ≡ (s.worlds w).session_id))
  unfolding join_online_handler send_msg
  join_safe fl i env uid ip msg c s h =
      let sid = wanted_sid fl i msg s in
      elim (Bool-cases (n.verified (s.sessions c).tcp)) [
        | inr v ↦ absurd (ground (arith, h, v))
        | inl v ↦ elim (Option-cases (join_error env uid ip msg sid c s)) [
          | inr ((cmd, code), e) ↦ absurd (ground (arith, h, v, e))
          | inl e ↦
              let (a, b, d, (w, f, g)) = join_error-none env uid ip sid msg c s e in
              (
                v,
                a,
                b,
                d,
                (
                  w,
                  f,
                  g,
                  rw (v, e, f, join_online_handler)
                      (enter_world_lem env msg.version (s.worlds w).session_id c s),
                ),
              )
        ]
      ]
