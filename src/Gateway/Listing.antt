-- ===== src/Gateway/Listing.antt =====
-- The list of the worlds that are registered.
use greatestworks.Base.{
  All, In, List, [], ap, arith, if_rule, leb, length, refl, suc, ℕ, ◌↔◌, ◌∙◌, ◌∷◌, ◌≡◌, ◌≤◌, ◌⊎◌,
}
use greatestworks.Gateway.Network.{Network, Redis}
use greatestworks.Gateway.State.{State, WorldSession}
use greatestworks.Gateway.Worlds.{get_session_list, insert_session, sessions_of, sort_sessions}

-- The indices do not fall.
abbrev pub IsOrdered : {n : Network} → List (WorldSession n) → Type 0
IsOrdered [] = Unit
IsOrdered (w ∷ ws) = All (λ v. w.pro_index ≤ v.pro_index) ws × IsOrdered ws

module _ {n : Network} where
  length-insert_session :
      (v : WorldSession n) (ws : List (WorldSession n))
      → length (insert_session v ws) ≡ suc (length ws)
  length-insert_session v [] = refl
  length-insert_session v (w ∷ ws) = ground (arith, length-insert_session v ws)

  In-insert_session :
      (v w : WorldSession n) (ws : List (WorldSession n))
      → (In w (insert_session v ws) ↔ (w ≡ v) ⊎ In w ws)
  In-insert_session v w [] = (λ h. h, λ h. h)
  In-insert_session v w (x ∷ ws) = (
    λ h. ground (arith, h, (In-insert_session v w ws).0),
    λ h. ground (arith, h, (In-insert_session v w ws).1),
  )

  All-insert_session :
      (k : ℕ) (v : WorldSession n) (ws : List (WorldSession n))
      → k ≤ v.pro_index
      → All (λ w. k ≤ w.pro_index) ws
      → All (λ w. k ≤ w.pro_index) (insert_session v ws)
  All-insert_session k v [] h a = (h, tt)
  All-insert_session k v (w ∷ ws) h a = ground (arith, h, a, All-insert_session k v ws h a.1)

  All-weaken :
      (j k : ℕ) (ws : List (WorldSession n))
      → j ≤ k
      → All (λ w. k ≤ w.pro_index) ws
      → All (λ w. j ≤ w.pro_index) ws
  All-weaken j k [] h a = tt
  All-weaken j k (w ∷ ws) h a = (omega (arith, a.0), All-weaken j k ws h a.1)

  insert_session-IsOrdered :
      (v : WorldSession n) (ws : List (WorldSession n))
      → IsOrdered ws
      → IsOrdered (insert_session v ws)
  insert_session-IsOrdered v [] o = (tt, tt)
  insert_session-IsOrdered v (w ∷ ws) o =
      if_rule IsOrdered (leb v.pro_index w.pro_index)
        (λ h.
          let le : v.pro_index ≤ w.pro_index = ground (arith, h) in
          ((le, All-weaken v.pro_index w.pro_index ws le o.0), o))
        (λ h.
          let le : w.pro_index ≤ v.pro_index = ground (arith, h) in
          (All-insert_session w.pro_index v ws le o.0, insert_session-IsOrdered v ws o.1))

  sort_sessions_lem :
      (ws : List (WorldSession n))
      → IsOrdered (sort_sessions ws)
        × (length (sort_sessions ws) ≡ length ws)
        × ((w : WorldSession n) → (In w (sort_sessions ws) ↔ In w ws))
  sort_sessions_lem [] = (tt, refl, λ w. (λ h. h, λ h. h))
  sort_sessions_lem (v ∷ ws) =
      let (o, l, i) = sort_sessions_lem ws in
      (
        insert_session-IsOrdered v (sort_sessions ws) o,
        length-insert_session v (sort_sessions ws) ∙ ap suc l,
        λ w. (
          λ h. ground (arith, (In-insert_session v w (sort_sessions ws)).0 h, (i w).0),
          λ h. ground (arith, h, (In-insert_session v w (sort_sessions ws)).1, (i w).1),
        ),
      )

-- `GetSessionList` lists the worlds that are registered, as many as there are entries, and in the
-- order of their indices.
pub get_session_list_lem :
    {n : Network} {r : Redis} (s : State n r)
    → IsOrdered (get_session_list s)
      × (length (get_session_list s) ≡ length (sessions_of s.endpoints s))
      × ((w : WorldSession n) → (In w (get_session_list s) ↔ In w (sessions_of s.endpoints s)))
unfolding get_session_list
get_session_list_lem s = sort_sessions_lem (sessions_of s.endpoints s)
