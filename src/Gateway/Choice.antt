-- ===== src/Gateway/Choice.antt =====
-- The world that a quick join is sent to.
use greatestworks.Base.{
  In, List, Option, String, [], arith, false, get_elem?_lem, if_rule, inl, inr, length, ltb, none,
  refl, some, true, ℕ, ◌%◌, ◌<◌, ◌∷◌, ◌≡◌, ◌≢◌, ◌≤◌, ◌⊎◌,
}
use greatestworks.Base.Float32.{Float32}
use greatestworks.Gateway.Network.{Network, Redis}
use greatestworks.Gateway.State.{State, WorldSession}
use greatestworks.Gateway.Worlds.{
  Load, busy, get_optimal_online, get_session_list, hot, idle, load_of, of_load, picked, picked_of,
  unavailable,
}

-- The order in which `GetOptimalOnline` prefers worlds.
abbrev pub priority : Load → ℕ
priority busy = 0
priority idle = 1
priority hot = 2
priority unavailable = 3

not_busy : (l : Load) → l ≢ busy → 1 ≤ priority l
not_busy busy h = absurd (h refl)
not_busy idle h = omega arith
not_busy hot h = omega arith
not_busy unavailable h = omega arith

not_idle : (l : Load) → l ≢ busy → l ≢ idle → 2 ≤ priority l
not_idle busy h k = absurd (h refl)
not_idle idle h k = absurd (k refl)
not_idle hot h k = omega arith
not_idle unavailable h k = omega arith

not_hot : (l : Load) → l ≢ busy → l ≢ idle → l ≢ hot → l ≡ unavailable
not_hot busy h k m = absurd (h refl)
not_hot idle h k m = absurd (k refl)
not_hot hot h k m = absurd (m refl)
not_hot unavailable h k m = refl

empty_of : (k : ℕ) → ltb 0 k ≡ false → k ≡ 0
empty_of k h = ground (arith, h)

full_of : (k : ℕ) → ltb 0 k ≡ true → 0 < k
full_of k h = ground (arith, h)

module _ (fl : Float32) {n : Network} where
  of_load-In :
      (l : Load) (w : WorldSession n) (ws : List (WorldSession n))
      → In w (of_load fl l ws)
      → In w ws × (load_of fl w ≡ l)
  of_load-In l w [] h = absurd h
  of_load-In l w (v ∷ ws) h = ground (arith, h, of_load-In l w ws)

  In-of_load :
      (w : WorldSession n) (ws : List (WorldSession n))
      → In w ws
      → In w (of_load fl (load_of fl w) ws)
  In-of_load w [] h = absurd h
  In-of_load w (v ∷ ws) h = ground (arith, h, In-of_load w ws)

  picked_lem :
      (i : ℕ) (ws : List (WorldSession n))
      → 0 < length ws
      → (w : WorldSession n) × In w ws × (picked i ws ≡ some w.session_id)
  picked_lem i ws h =
      let (w, e, k) = get_elem?_lem ws (i % length ws) (omega arith) in (w, k, rw (e, picked) refl)

  none_of :
      (l : Load) (w : WorldSession n) (ws : List (WorldSession n))
      → length (of_load fl l ws) ≡ 0
      → In w ws
      → load_of fl w ≢ l
  none_of l w [] h k = absurd k
  none_of l w (v ∷ ws) h k = ground (arith, h, k, none_of l w ws)

  -- The first class that has a world: no world has a better one.
  abbrev pub IsBest : List (WorldSession n) → WorldSession n → Type 0
  IsBest ws w =
      In w ws
      × (priority (load_of fl w) < 3)
      × ((v : WorldSession n) → In v ws → priority (load_of fl w) ≤ priority (load_of fl v))

  abbrev pub AreUnavailable : List (WorldSession n) → Type 0
  AreUnavailable ws = (v : WorldSession n) → In v ws → load_of fl v ≡ unavailable

  chosen :
      (i : ℕ) (l : Load) (ws : List (WorldSession n))
      → 0 < length (of_load fl l ws)
      → priority l < 3
      → ((v : WorldSession n) → In v ws → priority l ≤ priority (load_of fl v))
      → (w : WorldSession n) × IsBest ws w × (picked i (of_load fl l ws) ≡ some w.session_id)
  chosen i l ws h p q =
      let (w, k, e) = picked_lem i (of_load fl l ws) h in
      let (m, o) = of_load-In l w ws k in (w, (m, rw o p, λ v j. rw o (q v j)), e)

  abbrev pub IsAnswer : List (WorldSession n) → Option String → Type 0
  IsAnswer ws o =
      ((o ≡ none) × AreUnavailable ws)
      ⊎ ((w : WorldSession n) × IsBest ws w × (o ≡ some w.session_id))

  picked_of_lem : (i : ℕ) (ws : List (WorldSession n)) → IsAnswer ws (picked_of fl i ws)
  picked_of_lem i ws =
      let size = λ (l : Load). length (of_load fl l ws) in
      if_rule (IsAnswer ws) (ltb 0 (size busy))
        (λ b. inr (chosen i busy ws (full_of (size busy) b) (omega arith) (λ v j. omega arith)))
        (λ b.
          let nb =
            λ (v : WorldSession n) (j : In v ws). none_of busy v ws (empty_of (size busy) b) j in
          if_rule (IsAnswer ws) (ltb 0 (size idle))
            (λ d. inr (
              chosen i idle ws (full_of (size idle) d) (omega arith)
                (λ v j. not_busy (load_of fl v) (nb v j))))
            (λ d.
              let ni = λ (v : WorldSession n) (j : In v ws).
                none_of idle v ws (empty_of (size idle) d) j in
              if_rule (IsAnswer ws) (ltb 0 (size hot))
                (λ e. inr (
                  chosen i hot ws (full_of (size hot) e) (omega arith)
                    (λ v j. not_idle (load_of fl v) (nb v j) (ni v j))))
                (λ e. inl (
                  refl,
                  λ v j.
                      not_hot (load_of fl v) (nb v j) (ni v j)
                        (none_of hot v ws (empty_of (size hot) e) j),
                ))))

-- `GetOptimalOnline` answers the id of a registered world that is not unavailable, and no
-- registered world is of a class that is preferred to its own: busy before idle before hot. It
-- answers none only if every registered world is unavailable.
pub get_optimal_online_lem :
    (fl : Float32) {n : Network} {r : Redis} (i : ℕ) (s : State n r)
    → IsAnswer fl (get_session_list s) (get_optimal_online fl i s)
unfolding get_optimal_online
get_optimal_online_lem fl i s = picked_of_lem fl i (get_session_list s)
