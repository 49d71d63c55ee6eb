-- ===== src/Gateway/Counted.antt =====
-- The counter `players` of the client manager against its map of clients.
use greatestworks.Base.{
  Option-cases, [], ap, arith, inl, inr, length, none, some, suc, sym, ℕ, ◌<◌, ◌∙◌, ◌≡◌,
}
use greatestworks.Base.Int.{negsuc, pos, wrap, wrap_int32, ℤ, ℤ_discrete, ◌+ℤ◌}
use greatestworks.Base.SyncMap.{
  Distinct, delete, delete-Distinct, length-delete, length-store, load, load-store, store-Distinct,
}
use greatestworks.Gateway.Clients.{add_client, get_client, get_client_num, remove_client}
use greatestworks.Gateway.Network.{Network, Redis}
use greatestworks.Gateway.State.{State}

wrap_int32-suc : (k : ℕ) → wrap_int32 (wrap_int32 (pos k) +ℤ pos 1) ≡ wrap_int32 (pos (suc k))
unfolding wrap_int32 wrap ◌+ℤ◌
wrap_int32-suc k = ground arith

wrap_int32_pred : (k : ℕ) → wrap_int32 (wrap_int32 (pos (suc k)) +ℤ negsuc 0) ≡ wrap_int32 (pos k)
unfolding wrap_int32 wrap ◌+ℤ◌
wrap_int32_pred k = ground arith

module _ {n : Network} {r : Redis} where
  -- The calls that change the map of clients: a connection comes with an id that is new, as the
  -- library hands them out.
  pub data Calls : State n r → State n r → Type 0 where
    none_yet : {s : State n r} → Calls s s
    adds :
        {s t : State n r} (client_id : ℤ) (c : ℕ)
        → Calls s t
        → get_client client_id t ≡ none
        → Calls s (add_client client_id c t)
    removes : {s t : State n r} (client_id : ℤ) → Calls s t → Calls s (remove_client client_id t)

  abbrev pub IsCounted : State n r → Type 0
  IsCounted s = Distinct s.clients × (s.players ≡ wrap_int32 (pos (length s.clients)))

  add_client-IsCounted :
      (client_id : ℤ) (c : ℕ) (s : State n r)
      → get_client client_id s ≡ none
      → IsCounted s
      → IsCounted (add_client client_id c s)
  unfolding add_client get_client
  add_client-IsCounted client_id c s e (d, p) = (
    store-Distinct ℤ_discrete client_id c s.clients e d,
    ground
        (arith, length-store ℤ_discrete client_id c s.clients, wrap_int32-suc (length s.clients)),
  )

  remove_client-IsCounted :
      (client_id : ℤ) (s : State n r) → IsCounted s → IsCounted (remove_client client_id s)
  unfolding remove_client
  remove_client-IsCounted client_id s (d, p) =
      elim (Option-cases (load ℤ_discrete client_id s.clients)) [
        | inl e ↦ rw (e, remove_client) (d, p)
        | inr (c, e) ↦
            let m = delete ℤ_discrete client_id s.clients in
            rw (e, remove_client)
              (
                delete-Distinct ℤ_discrete client_id s.clients d,
                ap (λ x. wrap_int32 (x +ℤ negsuc 0))
                      (p
                        ∙ ap (λ x. wrap_int32 (pos x))
                            (sym (length-delete ℤ_discrete client_id c s.clients d e)))
                    ∙ wrap_int32_pred (length m),
              )
      ]

  Calls-IsCounted : {s t : State n r} → Calls s t → IsCounted s → IsCounted t
  Calls-IsCounted none_yet i = i
  Calls-IsCounted (adds {t = t} client_id c h e) i =
      add_client-IsCounted client_id c t e (Calls-IsCounted h i)
  Calls-IsCounted (removes {t = t} client_id h) i =
      remove_client-IsCounted client_id t (Calls-IsCounted h i)

  -- From a manager without clients, after any calls of `addClient` with new ids and `removeClient`
  -- with any ids, the counter of players is the number of clients that `GetClientNum` counts, as
  -- long as there are fewer than 2^31.
  pub Calls-get_client_num :
      {s t : State n r}
      → s.clients ≡ []
      → s.players ≡ pos 0
      → Calls s t
      → length t.clients < 2147483648
      → t.players ≡ pos (get_client_num t)
  unfolding get_client_num wrap_int32 wrap
  Calls-get_client_num {s = s} e p h l =
      let i = Calls-IsCounted h (rw e (tt, ground (arith, p))) in ground (arith, i.1)

  -- `addClient` counts a client twice whose id is there already: the map keeps its size, and the
  -- counter grows.
  pub add_client_again :
      (client_id : ℤ) (c d : ℕ) (s : State n r)
      → get_client client_id s ≡ some d
      → (get_client_num (add_client client_id c s) ≡ get_client_num s)
        × ((add_client client_id c s).players ≡ wrap_int32 (s.players +ℤ pos 1))
        × (get_client client_id (add_client client_id c s) ≡ some c)
  unfolding add_client get_client get_client_num
  add_client_again client_id c d s e = ground (
    arith,
    length-store ℤ_discrete client_id c s.clients,
    load-store ℤ_discrete client_id client_id c s.clients,
  )
