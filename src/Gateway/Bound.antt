-- ===== src/Gateway/Bound.antt =====
-- Who is bound to a user's number: the invariant of `userid2Clients`, through every operation.
pub mod Operations
pub mod Handlers
pub mod Manager
pub mod Others
pub mod Runs
use greatestworks.Base.{arith, false, some, true, ℕ, ℕ_discrete, ◌≡◌, ◌≢◌}
use greatestworks.Base.SyncMap.{load, load-delete, load-store}
use greatestworks.Gateway.Clients.{bind_user_id2_client, unbind_user_id2_client}
use greatestworks.Gateway.Handlers.{on_user_verify}
use greatestworks.Gateway.Network.{IsNetwork, Network, Redis}
use greatestworks.Gateway.State.{Session, State, modify}

-- What a change of a session leaves alone.
abbrev pub Keeps : {n : Network} → (Session n → Session n) → Type 0
Keeps {n = n} f =
    (v : Session n) → ((f v).user_id ≡ v.user_id) × (n.verified (f v).tcp ≡ n.verified v.tcp)

module _ {n : Network} {r : Redis} where
  -- A user's client carries the user's number, and is verified.
  abbrev pub IsBound : State n r → Type 0
  IsBound s =
      (u c : ℕ)
      → load ℕ_discrete u s.userid2clients ≡ some c
      → ((s.sessions c).user_id ≡ u) × (n.verified (s.sessions c).tcp ≡ true)

  abbrev pub IsUnbound : ℕ → State n r → Type 0
  IsUnbound c s = (u : ℕ) → load ℕ_discrete u s.userid2clients ≢ some c

  pub modify-IsBound :
      (c : ℕ) (f : Session n → Session n) (s : State n r)
      → Keeps f
      → IsBound s
      → IsBound (modify c f s)
  modify-IsBound c f s k b u d h = ground (arith, k (s.sessions c), b u d h)

  pub modify_unbound :
      (c : ℕ) (f : Session n → Session n) (s : State n r)
      → IsUnbound c s
      → IsBound s
      → IsBound (modify c f s)
  modify_unbound c f s k b u d h = ground (arith, k u, b u d h)

  pub not_verified :
      (c : ℕ) (s : State n r) → IsBound s → n.verified (s.sessions c).tcp ≡ false → IsUnbound c s
  not_verified c s b h u e = ground (arith, b u c e)

  pub unbind-IsBound :
      (u c : ℕ) (s : State n r) → IsBound s → IsBound (unbind_user_id2_client u c s)
  unfolding unbind_user_id2_client
  unbind-IsBound u c s b v d h = ground (arith, b v d, load-delete ℕ_discrete u v s.userid2clients)

  pub unbind-IsUnbound :
      (c : ℕ) (s : State n r)
      → IsBound s
      → IsUnbound c (unbind_user_id2_client (s.sessions c).user_id c s)
  unfolding unbind_user_id2_client
  unbind-IsUnbound c s b v h =
      ground (arith, b v c, load-delete ℕ_discrete (s.sessions c).user_id v s.userid2clients)

  pub verify-IsBound :
      (u c : ℕ) (s : State n r)
      → IsNetwork n
      → IsUnbound c s
      → IsBound s
      → IsBound (on_user_verify u c s)
  unfolding on_user_verify bind_user_id2_client
  verify-IsBound u c s net k b v d h = ground (
    arith,
    b v d,
    k v,
    net.verified-verify (s.sessions c).tcp,
    load-store ℕ_discrete u v c s.userid2clients,
  )

  pub unbind-IsUnbound_other :
      (u c d : ℕ) (s : State n r) → IsUnbound d s → IsUnbound d (unbind_user_id2_client u c s)
  unfolding unbind_user_id2_client
  unbind-IsUnbound_other u c d s k v h =
      ground (arith, k v, load-delete ℕ_discrete u v s.userid2clients)
