-- ===== src/Gateway/Drop/Check.antt =====
-- `DisconnectedCheck`: every client that stays away is dropped.
use greatestworks.Base.{
  Bool, In, [], ap, arith, if_rule, inl, inr, none, refl, some, subst, sym, true, ℕ, ◌&&◌, ◌||◌,
  ◌∷◌, ◌≡◌, ◌≢◌,
}
use greatestworks.Base.Int.{ltb_ℤ, ℤ, ◌-ℤ◌}
use greatestworks.Base.SyncMap.{SyncMap}
use greatestworks.Gateway.Clients.{
  client_dis_connection, client_no_response_timeout, get_client, get_client_by_user_id,
}
use greatestworks.Gateway.Drop.{IsDropped, dis_connection_lem}
use greatestworks.Gateway.Messages.{
  check_connection, check_ping, disconnected_check, disconnected_duration,
  ping_no_response_duration,
}
use greatestworks.Gateway.Network.{Network, Redis}
use greatestworks.Gateway.State.{Env, Session, State}

-- A client that has been disconnected for more than a minute, or has sent nothing for more than
-- five.
abbrev pub is_stale : Env → {n : Network} → Session n → Bool
is_stale env v =
    v.is_disconnected && ltb_ℤ disconnected_duration (env.now -ℤ v.disconnected_time)
    || ltb_ℤ ping_no_response_duration (env.now -ℤ v.last_ping_time)

module _ {n : Network} {r : Redis} where
  -- Clients are only taken away, and their sessions change by what is sent.
  abbrev Shrinks : State n r → State n r → Type 0
  Shrinks s t =
      ((k : ℤ) → get_client k s ≡ none → get_client k t ≡ none)
      × ((v c : ℕ) → get_client_by_user_id v t ≡ some c → get_client_by_user_id v s ≡ some c)
      × ((d : ℕ) → t.sessions d ≡ record (s.sessions d) { tcp = (t.sessions d).tcp })

  Shrinks-refl : (s : State n r) → Shrinks s s
  Shrinks-refl s = ((λ k e. e), (λ v c e. e), (λ d. refl))

  Shrinks-trans : (s t u : State n r) → Shrinks s t → Shrinks t u → Shrinks s u
  Shrinks-trans s t u (a, b, c) (a', b', c') =
      (λ k e. a' k (a k e), λ v d e. b v d (b' v d e), λ d. ground (arith, c d, c' d))

  IsDropped-Shrinks : (c : ℕ) (s t : State n r) → IsDropped c s t → Shrinks s t
  unfolding get_client get_client_by_user_id
  IsDropped-Shrinks c s t (f, g, h) = (λ k e. ground (arith, f k), λ v d e. ground (arith, g v), h)

  check_connection-Shrinks :
      (env : Env) (c : ℕ) (s : State n r) → Shrinks s (check_connection env c s)
  unfolding check_connection
  check_connection-Shrinks env c s =
      if_rule (Shrinks s)
        ((s.sessions c).is_disconnected
          && ltb_ℤ disconnected_duration (env.now -ℤ (s.sessions c).disconnected_time))
        (λ _. IsDropped-Shrinks c s (client_dis_connection env c s) (dis_connection_lem env c s))
        (λ _. Shrinks-refl s)

  check_ping-Shrinks : (env : Env) (c : ℕ) (s : State n r) → Shrinks s (check_ping env c s)
  unfolding check_ping client_no_response_timeout client_dis_connection
  check_ping-Shrinks env c s =
      if_rule (Shrinks s)
        (ltb_ℤ ping_no_response_duration (env.now -ℤ (s.sessions c).last_ping_time))
        (λ _. IsDropped-Shrinks c s (client_dis_connection env c s) (dis_connection_lem env c s))
        (λ _. Shrinks-refl s)

  disconnected_check-Shrinks :
      (env : Env) (m : SyncMap ℤ ℕ) (s : State n r) → Shrinks s (disconnected_check env m s)
  unfolding disconnected_check
  disconnected_check-Shrinks env [] s = Shrinks-refl s
  disconnected_check-Shrinks env ((k, c) ∷ m) s =
      let s1 = check_connection env c s in
      let s2 = check_ping env c s1 in
      Shrinks-trans s s1 (disconnected_check env m s2) (check_connection-Shrinks env c s) (
        Shrinks-trans s1 s2 (disconnected_check env m s2) (check_ping-Shrinks env c s1)
          (disconnected_check-Shrinks env m s2))

  abbrev pub IsGone : ℕ → Session n → State n r → Type 0
  IsGone c v t = (get_client v.conn_id t ≡ none) × (get_client_by_user_id v.user_id t ≢ some c)

  IsDropped-IsGone : (c : ℕ) (s t : State n r) → IsDropped c s t → IsGone c (s.sessions c) t
  unfolding get_client get_client_by_user_id
  IsDropped-IsGone c s t (f, g, h) =
      (ground (arith, f (s.sessions c).conn_id), λ e. ground (arith, g (s.sessions c).user_id))

  Shrinks-IsGone :
      (c : ℕ) (v : Session n) (s t : State n r) → Shrinks s t → IsGone c v s → IsGone c v t
  Shrinks-IsGone c v s t (a, b, d) (p, q) = (a v.conn_id p, λ e. q (b v.user_id c e))

  visited :
      (env : Env) (c : ℕ) (s : State n r)
      → is_stale env (s.sessions c) ≡ true
      → IsGone c (s.sessions c) (check_ping env c (check_connection env c s))
  unfolding check_connection check_ping client_no_response_timeout client_dis_connection
  visited env c s e =
      let v = s.sessions c in
      let gone =
        IsDropped-IsGone c s (client_dis_connection env c s) (dis_connection_lem env c s) in
      let away =
        v.is_disconnected && ltb_ℤ disconnected_duration (env.now -ℤ v.disconnected_time) in
      let silent = ltb_ℤ ping_no_response_duration (env.now -ℤ v.last_ping_time) in
      if_rule (λ (t : State n r). IsGone c v (check_ping env c t)) away
        (λ _.
          let t = client_dis_connection env c s in
          Shrinks-IsGone c v t (check_ping env c t) (check_ping-Shrinks env c t) gone)
        (λ p. if_rule (IsGone c v) silent (λ _. gone) (λ q. absurd (ground (arith, e, p, q))))

  -- `DisconnectedCheck` drops every client of the map that has been disconnected for more than a
  -- minute or silent for more than five: afterwards its connection is not in the map of clients,
  -- and its user's messages do not go to it any more.
  pub check_drops :
      (env : Env) (k : ℤ) (c : ℕ) (m : SyncMap ℤ ℕ) (s : State n r)
      → In (k, c) m
      → is_stale env (s.sessions c) ≡ true
      → IsGone c (s.sessions c) (disconnected_check env m s)
  unfolding disconnected_check
  check_drops env k c [] s h e = absurd h
  check_drops env k c ((j, d) ∷ m) s h e =
      let s1 = check_connection env d s in
      let s2 = check_ping env d s1 in
      let t = disconnected_check env m s2 in
      let (a, b, same) =
        Shrinks-trans s s1 s2 (check_connection-Shrinks env d s) (check_ping-Shrinks env d s1) in
      elim h [
        | inl p ↦
            let q : c ≡ d = ap (λ (x : ℤ × ℕ). x.1) p in
            subst (λ x. IsGone x (s.sessions x) t) (sym q)
              (Shrinks-IsGone d (s.sessions d) s2 t (disconnected_check-Shrinks env m s2)
                (visited env d s (subst (λ x. is_stale env (s.sessions x) ≡ true) q e)))
        | inr h' ↦
            let e' : is_stale env (s2.sessions c) ≡ true = ground (arith, same c, e) in
            let gone = check_drops env k c m s2 h' e' in
            let i = ap (λ (v : Session n). v.conn_id) (same c) in
            let u = ap (λ (v : Session n). v.user_id) (same c) in
            (
              subst (λ x. get_client x t ≡ none) i gone.0,
              subst (λ x. get_client_by_user_id x t ≢ some c) u gone.1,
            )
      ]
