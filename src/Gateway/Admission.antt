-- ===== src/Gateway/Admission.antt =====
-- Who gets in: what a login and a reconnection ask for before a session is bound to a user, and
-- what becomes of the user's other session.
use greatestworks.Base.{
  Option-cases, String, arith, false, if◌then◌else◌, inl, inr, is_empty_str, none, some, ℕ,
  ℕ_discrete, ◌≡◌, ◌≢◌,
}
use greatestworks.Base.Int.{ℤ_discrete}
use greatestworks.Base.SyncMap.{load-delete, load-store}
use greatestworks.Gateway.Clients.{
  bind_user_id2_client, get_client, get_client_by_user_id, remove_client, send_last_msg, send_msg,
  unbind_user_id2_client,
}
use greatestworks.Gateway.Handlers.{
  LoginRequest, ReconnectRequest, admit_client, is_same, login_error, login_handler, on_user_verify,
  reconnection_error, reconnection_handler, replace_client,
}
use greatestworks.Gateway.Network.{Network, Redis}
use greatestworks.Gateway.State.{Env, State}
use greatestworks.Login.Gateway.Clear.{kept}

-- What Redis has to say for a user to be let in.
abbrev pub IsTokenOf : (r : Redis) → r.Store → ℕ → String → Type 0
IsTokenOf r kept u token = (token ≡ r.token kept u) × (token ≢ "")

module _ {n : Network} {r : Redis} where
  login_error-none :
      (env : Env) (msg : LoginRequest) (c : ℕ) (s : State n r)
      → login_error env msg c s ≡ none
      → IsTokenOf r s.redis msg.userid msg.token
        × (msg.zone_id ≡ env.zone_id)
        × (r.account_gateway s.redis msg.userid ≡ some env.tcp_address)
        × (is_same c (get_client_by_user_id msg.userid s) ≡ false)
  unfolding login_error
  login_error-none env msg c s e = ground (arith, e)

  -- A login binds a session to the user only with the user's token, which is not empty, for this
  -- gateway's zone, and where the account names this gateway.
  pub login_safe :
      (env : Env) (msg : LoginRequest) (c : ℕ) (s : State n r)
      → get_client_by_user_id msg.userid s ≢ some c
      → get_client_by_user_id msg.userid (login_handler env msg c s) ≡ some c
      → IsTokenOf r s.redis msg.userid msg.token
        × (msg.zone_id ≡ env.zone_id)
        × (r.account_gateway s.redis msg.userid ≡ some env.tcp_address)
  unfolding login_handler send_msg get_client_by_user_id
  login_safe env msg c s h k = elim (Option-cases (login_error env msg c s)) [
    | inl e ↦ let (a, b, d, f) = login_error-none env msg c s e in (a, b, d)
    | inr (code, e) ↦ absurd (ground (arith, e, h, k))
  ]

  reconnection_error-none :
      (env : Env) (msg : ReconnectRequest) (c : ℕ) (s : State n r)
      → reconnection_error env msg c s ≡ none
      → IsTokenOf r s.redis msg.userid msg.token
        × (msg.zone_id ≡ env.zone_id)
        × (get_client_by_user_id msg.userid s ≢ none)
  unfolding reconnection_error
  reconnection_error-none env msg c s e = ground (arith, e)

  -- A reconnection binds a session to the user only with the user's token, which is not empty, for
  -- this gateway's zone, while the user still has another session here.
  pub reconnection_safe :
      (env : Env) (msg : ReconnectRequest) (c : ℕ) (s : State n r)
      → get_client_by_user_id msg.userid s ≢ some c
      → get_client_by_user_id msg.userid (reconnection_handler env msg c s) ≡ some c
      → IsTokenOf r s.redis msg.userid msg.token
        × (msg.zone_id ≡ env.zone_id)
        × (get_client_by_user_id msg.userid s ≢ none)
  unfolding reconnection_handler send_msg get_client_by_user_id
  reconnection_safe env msg c s h k = elim (Option-cases (reconnection_error env msg c s)) [
    | inl e ↦ reconnection_error-none env msg c s e
    | inr (code, e) ↦ absurd (ground (arith, e, h, k))
  ]

  replace_client_lem :
      (c old : ℕ) (s : State n r)
      → c ≢ old
      → let t = replace_client c old s in
        (get_client (s.sessions old).conn_id t ≡ none)
        × ((t.sessions c).world_server_id ≡ (
            if is_empty_str (s.sessions old).world_server_id
            then (s.sessions c).world_server_id
            else (s.sessions old).world_server_id))
  unfolding replace_client unbind_user_id2_client send_last_msg remove_client get_client
  replace_client_lem c old s h =
      ground (
        arith,
        h,
        load-delete ℤ_discrete (s.sessions old).conn_id (s.sessions old).conn_id s.clients,
      )

  admit_client_lem :
      (env : Env) (msg : LoginRequest) (c : ℕ) (s : State n r)
      → let t = admit_client env msg c s in
        (get_client_by_user_id msg.userid t ≡ some c)
        × (t.clients ≡ s.clients)
        × ((t.sessions c).world_server_id ≡ (s.sessions c).world_server_id)
  unfolding admit_client on_user_verify bind_user_id2_client send_msg get_client_by_user_id
  admit_client_lem env msg c s =
      ground (arith, load-store ℕ_discrete msg.userid msg.userid c s.userid2clients)

  -- A login that is let in, of a user with another session, moves the user to the new session:
  -- the other connection leaves the map of clients, and the world it was in goes over.
  pub login_replaces :
      (env : Env) (msg : LoginRequest) (c old : ℕ) (s : State n r)
      → n.verified (s.sessions c).tcp ≡ false
      → login_error env msg c s ≡ none
      → get_client_by_user_id msg.userid s ≡ some old
      → let t = login_handler env msg c s in
        (get_client_by_user_id msg.userid t ≡ some c)
        × (get_client (s.sessions old).conn_id t ≡ none)
        × ((t.sessions c).world_server_id ≡ (
            if is_empty_str (s.sessions old).world_server_id
            then (s.sessions c).world_server_id
            else (s.sessions old).world_server_id))
  unfolding login_handler get_client
  login_replaces env msg c old s v e h =
      let (a, b, d, f) = login_error-none env msg c s e in
      let k : c ≢ old = λ p. ground (arith, f, h, p) in
      let s1 = replace_client c old s in
      rw (v, e, h, login_handler)
        (ground (arith, replace_client_lem c old s k, admit_client_lem env msg c s1))
