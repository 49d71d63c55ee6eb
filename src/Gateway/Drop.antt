-- ===== src/Gateway/Drop.antt =====
-- Who is dropped: a client that is disconnected, and the check that drops the ones that stay away.
pub mod Check
pub mod Full
use greatestworks.Base.{
  Option, Option-cases, String_discrete, ap, arith, if_rule, if◌then◌else◌, inl, inr, is_empty_str,
  ite, none, refl, ℕ, ℕ_discrete, ◌≡◌,
}
use greatestworks.Base.Int.{ℤ, ℤ_discrete}
use greatestworks.Base.SyncMap.{load, load-delete}
use greatestworks.Gateway.Clients.{
  client_dis_connection, close, close_if_open, drop_client, forget_account, get_client,
  get_client_by_user_id, offline_if_in_world, remove_client, send_client_offline_msg,
  send_msg_to_world_server, unbind_user_id2_client,
}
use greatestworks.Gateway.Handlers.{is_same}
use greatestworks.Gateway.Network.{Network, Redis}
use greatestworks.Gateway.State.{Env, Session, State}

-- What the drop of a client leaves of the two maps.
abbrev pub without : ℕ → ℕ → ℕ → Option ℕ → Option ℕ
without u v c o = ite (ℕ_discrete u v) (if is_same c o then none else o) o

module _ {n : Network} {r : Redis} where
  abbrev pub IsDropped : ℕ → State n r → State n r → Type 0
  IsDropped c s t =
      ((k : ℤ) → get_client k t ≡ ite (ℤ_discrete (s.sessions c).conn_id k) none (get_client k s))
      × ((v : ℕ)
          → get_client_by_user_id v t
            ≡ without (s.sessions c).user_id v c (get_client_by_user_id v s))
      × ((d : ℕ) → t.sessions d ≡ record (s.sessions d) { tcp = (t.sessions d).tcp })

  drop_client_lem : (c : ℕ) (s : State n r) → IsDropped c s (drop_client c s)
  unfolding drop_client remove_client unbind_user_id2_client get_client get_client_by_user_id
  drop_client_lem c s = (
    λ k. ground (arith, load-delete ℤ_discrete (s.sessions c).conn_id k s.clients),
    λ v. ground (arith, load-delete ℕ_discrete (s.sessions c).user_id v s.userid2clients),
    λ d. ground arith,
  )

  abbrev IsQuiet : State n r → State n r → Type 0
  IsQuiet s t =
      (t.clients ≡ s.clients) × (t.userid2clients ≡ s.userid2clients) × (t.sessions ≡ s.sessions)

  offline_lem : (c : ℕ) (s : State n r) → IsQuiet s (offline_if_in_world c s)
  unfolding offline_if_in_world send_client_offline_msg send_msg_to_world_server
  offline_lem c s =
      if_rule (IsQuiet s) (is_empty_str (s.sessions c).world_server_id) (λ _. (refl, refl, refl))
        (λ _.
          elim (Option-cases (load String_discrete (s.sessions c).world_server_id s.endpoints)) [
            | inl e ↦ rw (e, send_client_offline_msg, send_msg_to_world_server) (refl, refl, refl)
            | inr (w, e) ↦
                rw (e, send_client_offline_msg, send_msg_to_world_server) (refl, refl, refl)
          ])

  forget_lem : (env : Env) (c : ℕ) (s : State n r) → IsQuiet s (forget_account env c s)
  unfolding forget_account
  forget_lem env c s = (ground arith, ground arith, ground arith)

  quiet_before : (c : ℕ) (s t u : State n r) → IsQuiet s t → IsDropped c t u → IsDropped c s u
  unfolding get_client get_client_by_user_id
  quiet_before c s t u (a, b, e) (f, g, h) = (
    λ k. ground (arith, f k, a, ap (λ (x : ℕ → Session n). (x c).conn_id) e),
    λ v. ground (arith, g v, b, ap (λ (x : ℕ → Session n). (x c).user_id) e),
    λ d. ground (arith, h d, ap (λ (x : ℕ → Session n). x d) e),
  )

  closed_lem :
      (c d : ℕ) (s : State n r)
      → ((close_if_open c s).clients ≡ s.clients)
        × ((close_if_open c s).userid2clients ≡ s.userid2clients)
        × ((close_if_open c s).sessions d
            ≡ record (s.sessions d) { tcp = ((close_if_open c s).sessions d).tcp })
  unfolding close_if_open close
  closed_lem c d s = ground arith

  closed_after : (c : ℕ) (s t : State n r) → IsDropped c s t → IsDropped c s (close_if_open c t)
  unfolding get_client get_client_by_user_id
  closed_after c s t (f, g, h) = (
    λ k. ground (arith, f k, closed_lem c c t),
    λ v. ground (arith, g v, closed_lem c c t),
    λ d. ground (arith, h d, closed_lem c d t),
  )

  pub dis_connection_lem :
      (env : Env) (c : ℕ) (s : State n r) → IsDropped c s (client_dis_connection env c s)
  unfolding client_dis_connection get_client get_client_by_user_id
  dis_connection_lem env c s =
      let s1 = offline_if_in_world c s in
      let s2 = forget_account env c s1 in
      quiet_before c s s1 (client_dis_connection env c s) (offline_lem c s) (
        quiet_before c s1 s2 (client_dis_connection env c s) (forget_lem env c s1)
          (closed_after c s2 (drop_client c s2) (drop_client_lem c s2)))
