-- ===== src/Gateway/Drop/Full.antt =====
-- The cache of a disconnected client never grows beyond its size, and a message too many drops the
-- client.
use greatestworks.Base.{
  Bool, List, Option-cases, [], arith, false, if_rule, inl, inr, length, length-append, none, not,
  some, true, ℕ, ◌&&◌, ◌∷◌, ◌≡◌,
}
use greatestworks.Base.Int.{ltb_ℤ, pos, ◌-ℤ◌, ◌≤ℤ◌}
use greatestworks.Gateway.Cache.{with_messages}
use greatestworks.Gateway.Clients.{client_dis_connection, get_client, get_client_by_user_id}
use greatestworks.Gateway.Drop.{dis_connection_lem}
use greatestworks.Gateway.Messages.{disconnected_duration, send_msg_to_client}
use greatestworks.Gateway.Network.{Network, Redis}
use greatestworks.Gateway.State.{Env, State, modify}

module _ {n : Network} {r : Redis} where
  abbrev pub IsWithin : Env → State n r → Type 0
  IsWithin env s =
      (d : ℕ) → pos (length (s.sessions d).disconnected_messages) ≤ℤ env.pri_msg_buff_size

  dropped-IsWithin :
      (env : Env) (c : ℕ) (s : State n r)
      → IsWithin env s
      → IsWithin env (client_dis_connection env c s)
  dropped-IsWithin env c s b d =
      let (f, g, h) = dis_connection_lem env c s in ground (arith, h d, b d)

  cached-IsWithin :
      (env : Env) (c : ℕ) (row : List ℕ) (s : State n r)
      → ltb_ℤ (pos (length (s.sessions c).disconnected_messages)) env.pri_msg_buff_size ≡ true
      → IsWithin env s
      → IsWithin env (modify c (with_messages (row ∷ [])) s)
  cached-IsWithin env c row s e b d =
      ground (arith, e, b d, length-append (s.sessions c).disconnected_messages (row ∷ []))

  -- `SendMsgToClient` keeps the cache of every session within its size.
  pub send_msg_to_client-IsWithin :
      (env : Env) (u : ℕ) (row : List ℕ) (s : State n r)
      → IsWithin env s
      → IsWithin env (send_msg_to_client env u row s).0
  unfolding send_msg_to_client
  send_msg_to_client-IsWithin env u row s b = elim (Option-cases (get_client_by_user_id u s)) [
    | inl e ↦ rw (e, send_msg_to_client) b
    | inr (c, e) ↦
        let v = s.sessions c in
        let gone = dropped-IsWithin env c s b in
        rw (e, send_msg_to_client)
          (if_rule (λ (t : State n r × Bool). IsWithin env t.0) (not v.is_disconnected)
            (λ _ d. ground (arith, b d))
            (λ _.
              if_rule (λ (t : State n r × Bool). IsWithin env t.0)
                (ltb_ℤ (env.now -ℤ v.disconnected_time) disconnected_duration)
                (λ _.
                  if_rule (λ (t : State n r × Bool). IsWithin env t.0)
                    (ltb_ℤ (pos (length v.disconnected_messages)) env.pri_msg_buff_size)
                    (λ k. cached-IsWithin env c row s k b) (λ _. gone))
                (λ _. gone)))
  ]

  -- A message to a disconnected client whose cache is full, or who has been away for a minute, is
  -- refused, and the client is dropped: its connection leaves the map of clients, and the user, if
  -- that is the number that the session carries, has no client any more.
  pub send_msg_to_client_full :
      (env : Env) (u c : ℕ) (row : List ℕ) (s : State n r)
      → get_client_by_user_id u s ≡ some c
      → (s.sessions c).user_id ≡ u
      → (s.sessions c).is_disconnected ≡ true
      → (ltb_ℤ (env.now -ℤ (s.sessions c).disconnected_time) disconnected_duration
            && ltb_ℤ (pos (length (s.sessions c).disconnected_messages)) env.pri_msg_buff_size
          ≡ false)
      → let (t, ok) = send_msg_to_client env u row s in
        (ok ≡ false)
        × (get_client (s.sessions c).conn_id t ≡ none)
        × (get_client_by_user_id u t ≡ none)
  unfolding send_msg_to_client get_client get_client_by_user_id
  send_msg_to_client_full env u c row s e k h f =
      let (a, b, d) = dis_connection_lem env c s in
      ground (arith, e, k, h, f, a (s.sessions c).conn_id, b u)
