-- ===== src/Login/Zone/Limits.antt =====
-- What `RecommendZoneWorlds` and `recommendZone` may answer.
use greatestworks.Base.{
  All, All-append, In, List, Option, Option-cases, String, [], arith, get_elem?, if_rule, inl, inr,
  ite, ite_rule, leb, length, length-append, ltb, none, refl, some, suc, zero, ℕ, ◌%◌, ◌++◌, ◌<◌,
  ◌∷◌, ◌≡◌, ◌≢◌, ◌≤◌, ◌⊎◌,
}
use greatestworks.Base.Float32.{Float32}
use greatestworks.Base.Int.{pos, wrap_int32, ℤ, ℤ_discrete}
use greatestworks.Base.SyncMap.{SyncMap, keys, load}
use greatestworks.Login.Config.{Me, Status, Status-discrete, empty_status, ok_status}
use greatestworks.Login.World.{World, WorldEndpoint}
use greatestworks.Login.Zone.Manager.{ZoneManager}
use greatestworks.Login.Zone.Recommend.{
  WorldEndPointInfo, collect, full_info, or_zero, recommend_zone, recommend_zone_worlds, scan_zones,
  second_range, short_info,
}
use greatestworks.Login.Zone.Status.{measured}

module _ (fl : Float32) (me : Me) (now : ℤ) where
  -- A world that may be recommended for a zone.
  abbrev pub IsOffer : ℤ → WorldEndPointInfo → Type 0
  IsOffer zone w = (w.zone_id ≡ wrap_int32 zone) × ((w.stat ≡ empty_status) ⊎ (w.stat ≡ ok_status))

  collect-length :
      (wanted : Status) (info : WorldEndpoint → Status → WorldEndPointInfo) (zone : ℤ)
      (m : SyncMap String WorldEndpoint) (worlds : List WorldEndPointInfo)
      → length worlds < 5
      → length (collect fl me now wanted info zone m worlds).1 ≤ 5
  collect-length wanted info zone [] worlds h = omega arith
  collect-length wanted info zone ((key, e) ∷ m) worlds h =
      let (e', stat) = measured fl me now e in
      let worlds' = ite (Status-discrete stat wanted) (worlds ++ info e stat ∷ []) worlds in
      ground (
        arith,
        collect-length wanted info zone m worlds h,
        collect-length wanted info zone m worlds',
        length-append worlds (info e stat ∷ []),
      )

  grown-IsOffer :
      (wanted stat : Status) (info : WorldEndpoint → Status → WorldEndPointInfo) (zone : ℤ)
      (e : WorldEndpoint) (worlds : List WorldEndPointInfo)
      → IsOffer zone (info e wanted)
      → All (IsOffer zone) worlds
      → All (IsOffer zone) (ite (Status-discrete stat wanted) (worlds ++ info e stat ∷ []) worlds)
  grown-IsOffer wanted stat info zone e worlds good h =
      ite_rule (All (IsOffer zone)) (Status-discrete stat wanted)
        (λ p. rw p (All-append (IsOffer zone) worlds (info e wanted ∷ []) h (good, tt))) (λ _. h)

  collect-IsOffer :
      (wanted : Status) (info : WorldEndpoint → Status → WorldEndPointInfo) (zone : ℤ)
      (m : SyncMap String WorldEndpoint) (worlds : List WorldEndPointInfo)
      → ((e : WorldEndpoint) → e.zone_id ≡ zone → IsOffer zone (info e wanted))
      → All (IsOffer zone) worlds
      → All (IsOffer zone) (collect fl me now wanted info zone m worlds).1
  collect-IsOffer wanted info zone [] worlds good h = h
  collect-IsOffer wanted info zone ((key, e) ∷ m) worlds good h =
      let (e', stat) = measured fl me now e in
      let worlds' = ite (Status-discrete stat wanted) (worlds ++ info e stat ∷ []) worlds in
      ite_rule
        (λ (r : SyncMap String WorldEndpoint × List WorldEndPointInfo). All (IsOffer zone) r.1)
        (ℤ_discrete e.zone_id zone)
        (λ p.
          let h' = grown-IsOffer wanted stat info zone e worlds (good e p) h in
          if_rule
            (λ (r : SyncMap String WorldEndpoint × List WorldEndPointInfo). All (IsOffer zone) r.1)
            (leb 5 (length worlds')) (λ _. h')
            (λ _. collect-IsOffer wanted info zone m worlds' good h'))
        (λ _. collect-IsOffer wanted info zone m worlds good h)

  offers :
      (zone : ℤ) (w : World)
      → All
          (IsOffer zone)
          (second_range fl me now zone
            (collect fl me now empty_status (short_info fl me now) zone w.end_points [])).1
  offers zone w =
      let first = collect fl me now empty_status (short_info fl me now) zone w.end_points [] in
      let h : All (IsOffer zone) first.1 =
        collect-IsOffer empty_status (short_info fl me now) zone w.end_points []
          (λ e p. (rw p, inl refl)) tt in
      if_rule
        (λ (r : SyncMap String WorldEndpoint × List WorldEndPointInfo). All (IsOffer zone) r.1)
        (ltb (length first.1) 5)
        (λ _.
          collect-IsOffer ok_status (full_info fl me now) zone first.0 first.1
            (λ e p. (rw p, inr refl)) h)
        (λ _. h)

  -- `RecommendZoneWorlds` answers at most five worlds, each of the zone that was asked for and
  -- with room, and says whether there is any.
  pub recommend_zone_worlds_lem :
      (z : ZoneManager) (zone : ℤ)
      → (length (recommend_zone_worlds fl me now z zone).2 ≤ 5)
        × All (IsOffer zone) (recommend_zone_worlds fl me now z zone).2
        × ((recommend_zone_worlds fl me now z zone).1
            ≡ ltb 0 (length (recommend_zone_worlds fl me now z zone).2))
  unfolding recommend_zone_worlds
  recommend_zone_worlds_lem z zone = elim (Option-cases (load ℤ_discrete zone z.worlds)) [
    | inl n ↦ rw (n, recommend_zone_worlds) (omega arith, tt, refl)
    | inr (w, e) ↦
        let first = collect fl me now empty_status (short_info fl me now) zone w.end_points [] in
        rw (e, recommend_zone_worlds)
          (
            ground (
              arith,
              collect-length empty_status (short_info fl me now) zone w.end_points [] (omega arith),
              collect-length ok_status (full_info fl me now) zone first.0 first.1,
            ),
            offers zone w,
            refl,
          )
  ]

  -- A zone that `recommendZone` picks is one of the zones, or 0 for none.
  scan_zones-In :
      (m : SyncMap ℤ World)
      → (keys (scan_zones fl me now m).0 ≡ keys m)
        × ((scan_zones fl me now m).1 ≡ pos 0 ⊎ In (scan_zones fl me now m).1 (keys m))
  scan_zones-In [] = (refl, inl refl)
  scan_zones-In ((zone, w) ∷ m) = ground (arith, scan_zones-In m)

  get_elem?-In : (ks : List ℤ) (i : ℕ) (k : ℤ) → get_elem? ks i ≡ some k → In k ks
  get_elem?-In [] i k h = absurd (cc)
  get_elem?-In (x ∷ ks) zero k h = ground arith
  get_elem?-In (x ∷ ks) (suc i) k h = ground (arith, get_elem?-In ks i k)

  get_elem?_total : (ks : List ℤ) (i : ℕ) → i < length ks → get_elem? ks i ≢ none
  get_elem?_total [] i h = absurd (omega arith)
  get_elem?_total (x ∷ ks) zero h = λ e. cc
  get_elem?_total (x ∷ ks) (suc i) h = get_elem?_total ks i (omega arith)

  picked_from :
      (ks : List ℤ) (o : Option ℤ) → ((k : ℤ) → o ≡ some k → In k ks) → o ≢ none → In (or_zero o) ks
  picked_from ks none f h = absurd (h refl)
  picked_from ks (some k) f h = f k refl

  picked :
      (ks : List ℤ) (r : ℕ)
      → (ks ≡ []) × (or_zero (get_elem? ks (r % length ks)) ≡ pos 0)
        ⊎ In (or_zero (get_elem? ks (r % length ks))) ks
  picked [] r = inl (refl, refl)
  picked (x ∷ ks) r =
      let i : ℕ = r % suc (length ks) in
      inr (
        picked_from (x ∷ ks) (get_elem? (x ∷ ks) i) (λ k e. get_elem?-In (x ∷ ks) i k e)
          (get_elem?_total (x ∷ ks) i (omega arith)))

  -- `recommendZone` answers one of the known zones if there is any, whatever the load of the
  -- worlds and the random number, and 0 if there is none. It leaves the set of zones as it was.
  pub recommend_zone_lem :
      (z : ZoneManager) (r : ℕ)
      → (keys (recommend_zone fl me now z r).0.worlds ≡ keys z.worlds)
        × ((keys z.worlds ≡ []) × ((recommend_zone fl me now z r).1 ≡ pos 0)
            ⊎ In (recommend_zone fl me now z r).1 (keys z.worlds))
  unfolding recommend_zone
  recommend_zone_lem z r =
      ground (arith, scan_zones-In z.worlds, picked (keys (scan_zones fl me now z.worlds).0) r)
