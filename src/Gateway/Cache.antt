-- ===== src/Gateway/Cache.antt =====
-- Messages to a client that has lost its connection: what is kept, what is dropped, and what a
-- reconnection delivers.
use greatestworks.Base.{
  Bool, List, Option-cases, String, String_discrete, [], ap, append-nil, append-snoc, arith, false,
  if_rule, if◌then◌else◌, inl, inr, length, length-append, none, refl, some, suc, sym, true, ℕ,
  ℕ_discrete, ◌++◌, ◌+◌, ◌==◌, ◌∙◌, ◌∷◌, ◌≡◌, ◌≢◌,
}
use greatestworks.Base.Int.{ltb_ℤ, pos, ◌-ℤ◌, ◌≤ℤ◌}
use greatestworks.Base.SyncMap.{load, load-store}
use greatestworks.Gateway.Clients.{
  bind_user_id2_client, close, drop_client, get_client_by_user_id, remove_client,
  send_client_online_msg, send_msg, send_msg_to_world_server, unbind_user_id2_client,
}
use greatestworks.Gateway.Handlers.{
  ReconnectRequest, on_user_verify, reconnection_error, reconnection_handler, take_over,
}
use greatestworks.Gateway.Messages.{
  client_online, client_reconnection, disconnected_duration, send_all, send_msg_to_client,
}
use greatestworks.Gateway.Network.{
  ClientOnlineRet, Network, Redis, cs_reconnection, reconnection_ret_body,
}
use greatestworks.Gateway.State.{Env, Session, State, modify}

-- The client has lost its connection less than a minute ago, and its cache has room.
abbrev pub IsCaching : {n : Network} → Env → ℕ → Session n → Type 0
IsCaching env k v =
    (v.is_disconnected ≡ true)
    × (ltb_ℤ (env.now -ℤ v.disconnected_time) disconnected_duration ≡ true)
    × (pos (length v.disconnected_messages + k) ≤ℤ env.pri_msg_buff_size)

abbrev pub with_messages : {n : Network} → List (List ℕ) → Session n → Session n
with_messages rows v = record v { disconnected_messages = v.disconnected_messages ++ rows }

module _ {n : Network} {r : Redis} where
  unfoldable pub send_rows : Env → ℕ → List (List ℕ) → State n r → State n r
  unfolding send_msg_to_client
  send_rows env u [] s = s
  send_rows env u (row ∷ rows) s = send_rows env u rows (send_msg_to_client env u row s).0

  cached :
      (env : Env) (u c k : ℕ) (row : List ℕ) (s : State n r)
      → get_client_by_user_id u s ≡ some c
      → IsCaching env (suc k) (s.sessions c)
      → (send_msg_to_client env u row s).0 ≡ modify c (with_messages (row ∷ [])) s
  unfolding send_msg_to_client
  cached env u c k row s e h = ground arith

  verify_lem :
      (u c : ℕ) (s : State n r)
      → (get_client_by_user_id u (on_user_verify u c s) ≡ some c)
        × ((on_user_verify u c s).endpoints ≡ s.endpoints)
        × (((on_user_verify u c s).sessions c).tcp ≡ n.verify (s.sessions c).tcp)
        × (((on_user_verify u c s).sessions c).disconnected_messages
            ≡ (s.sessions c).disconnected_messages)
  unfolding on_user_verify bind_user_id2_client get_client_by_user_id
  verify_lem u c s = ground (arith, load-store ℕ_discrete u u c s.userid2clients)

  pub send_online_lem :
      (env : Env) (id version : String) (b : Bool) (c : ℕ) (s : State n r)
      → let t = send_client_online_msg env id version b c s in
        (t.userid2clients ≡ s.userid2clients)
        × (t.endpoints ≡ s.endpoints)
        × (t.sessions ≡ s.sessions)
  unfolding send_client_online_msg send_msg_to_world_server
  send_online_lem env id version b c s = elim (Option-cases (load String_discrete id s.endpoints)) [
    | inl e ↦ rw (e, send_client_online_msg, send_msg_to_world_server) (refl, refl, refl)
    | inr (w, e) ↦ rw (e, send_client_online_msg, send_msg_to_world_server) (refl, refl, refl)
  ]

  dropped_lem :
      (old c : ℕ) (s : State n r)
      → c ≢ old
      → let s2 = drop_client old s in
        let t =
          if n.is_closed (s2.sessions old).tcp
          then s2
          else close old (modify old (λ v. record v { user_id = 0 }) s2) in
        (t.endpoints ≡ s.endpoints) × (t.sessions c ≡ s.sessions c)
  unfolding drop_client remove_client unbind_user_id2_client close
  dropped_lem old c s h = ground (arith, h)

  pub take_over_lem :
      (env : Env) (msg : ReconnectRequest) (c old : ℕ) (s : State n r)
      → c ≢ old
      → let t = take_over env msg c old s in
        (get_client_by_user_id msg.userid t ≡ some c)
        × (t.endpoints ≡ s.endpoints)
        × ((t.sessions c).tcp ≡ n.verify (s.sessions c).tcp)
        × ((t.sessions c).disconnected_messages ≡ (s.sessions old).disconnected_messages)
  unfolding take_over get_client_by_user_id drop_client close
  take_over_lem env msg c old s h =
      let ds = (s.sessions old).disconnected_messages in
      let s1 = modify c (λ v. record v { disconnected_messages = ds }) s in
      let s2 = drop_client old s1 in
      let s3 =
        (if n.is_closed (s2.sessions old).tcp
          then s2
          else close old (modify old (λ v. record v { user_id = 0 }) s2)) in
      let s4 = on_user_verify msg.userid c s3 in
      let (ve, vn, vt, vm) = verify_lem msg.userid c s3 in
      let (de, dv) = dropped_lem old c s1 h in
      let (ou, oe, os) =
        send_online_lem env (s4.sessions old).world_server_id msg.version true c s4 in
      ground (arith, ap (λ (f : ℕ → Session n). f c) os)

  pub reconnection_takes_over :
      (env : Env) (msg : ReconnectRequest) (c old : ℕ) (s : State n r)
      → reconnection_error env msg c s ≡ none
      → get_client_by_user_id msg.userid s ≡ some old
      → c ≢ old
      → reconnection_handler env msg c s ≡ take_over env msg c old s
  unfolding reconnection_handler
  reconnection_takes_over env msg c old s e h o =
      rw (e, h, reconnection_handler)
        (if_rule (λ (t : State n r). t ≡ take_over env msg c old s) (c == old)
          (λ q. absurd (ground (arith, o, q))) (λ _. refl))

  send_rows_lem :
      (env : Env) (u c d : ℕ) (rows : List (List ℕ)) (s : State n r)
      → get_client_by_user_id u s ≡ some c
      → IsCaching env (length rows) (s.sessions c)
      → d ≢ c
      → let t = send_rows env u rows s in
        (t.endpoints ≡ s.endpoints)
        × (t.sessions c ≡ with_messages rows (s.sessions c))
        × (t.sessions d ≡ s.sessions d)
        × (t.userid2clients ≡ s.userid2clients)
  unfolding send_rows get_client_by_user_id
  send_rows_lem env u c d [] s e h k = (
    refl,
    ap (λ x. record (s.sessions c) { disconnected_messages = x })
        (sym (append-nil (s.sessions c).disconnected_messages)),
    refl,
    refl,
  )
  send_rows_lem env u c d (row ∷ rows) s e h k =
      let s1 = modify c (with_messages (row ∷ [])) s in
      let ms = (s.sessions c).disconnected_messages in
      let h1 : IsCaching env (length rows) (s1.sessions c) =
        ground (arith, h, length-append ms (row ∷ [])) in
      rw (cached env u c (length rows) row s e h, send_rows)
        (ground (arith, send_rows_lem env u c d rows s1 e h1 k, append-snoc ms row rows, k))

  online_lem :
      (msg : ClientOnlineRet) (srv_id : String) (c w : ℕ) (s : State n r)
      → get_client_by_user_id msg.userid s ≡ some c
      → load String_discrete srv_id s.endpoints ≡ some w
      → msg.reconnection ≡ true
      → let t = client_online msg srv_id s in
        ((t.sessions c).tcp
          ≡ send_all n
              (s.sessions c).disconnected_messages
              (n.async_send cs_reconnection
                (reconnection_ret_body msg.result)
                (s.sessions c).tcp).0)
        × ((t.sessions c).disconnected_messages ≡ [])
        × ((t.sessions c).is_reconnection ≡ false)
  unfolding client_online client_reconnection send_msg
  online_lem msg srv_id c w s e f g = ground arith

  -- What is sent to a user whose connection is lost for less than a minute is kept while the cache
  -- has room. If the user comes back on another connection, by a reconnection that is let in, and
  -- the world confirms it, that connection is sent the answer to the reconnection and then every
  -- message that was kept, the older ones first, and its cache is empty.
  pub reconnection_delivers :
      (env env' : Env) (msg : ReconnectRequest) (ret : ClientOnlineRet) (rows : List (List ℕ))
      (srv_id : String) (c old w : ℕ) (s : State n r)
      → get_client_by_user_id msg.userid s ≡ some old
      → c ≢ old
      → IsCaching env (length rows) (s.sessions old)
      → reconnection_error env' msg c (send_rows env msg.userid rows s) ≡ none
      → load String_discrete srv_id s.endpoints ≡ some w
      → ret.userid ≡ msg.userid
      → ret.reconnection ≡ true
      → let away = send_rows env msg.userid rows s in
        let back = client_online ret srv_id (reconnection_handler env' msg c away) in
        ((back.sessions c).tcp
          ≡ send_all n
              ((s.sessions old).disconnected_messages ++ rows)
              (n.async_send cs_reconnection
                (reconnection_ret_body ret.result)
                (n.verify (s.sessions c).tcp)).0)
        × ((back.sessions c).disconnected_messages ≡ [])
        × ((back.sessions c).is_reconnection ≡ false)
  unfolding get_client_by_user_id
  reconnection_delivers env env' msg ret rows srv_id c old w s e k h err f g o =
      let away = send_rows env msg.userid rows s in
      let (ae, ao, ac, au) = send_rows_lem env msg.userid old c rows s e h k in
      let (te, tn, tt', tm) = take_over_lem env' msg c old away k in
      let here : get_client_by_user_id msg.userid away ≡ some old =
        ap (λ m. load ℕ_discrete msg.userid m) au ∙ e in
      rw (reconnection_takes_over env' msg c old away err here k) (
        ground (
          arith,
          online_lem ret srv_id c w (take_over env' msg c old away),
          ae,
          ao,
          ac,
          te,
          tn,
          tt',
          tm,
        ))
