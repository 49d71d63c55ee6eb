-- ===== src/Login/Zone/Recommend.antt =====
-- The queries of the zone manager: which zone, gateway and worlds a player is sent to.
use greatestworks.Base.{
  Bool, List, Option, Outcome, String, [], false, get_elem?, if◌then◌else◌, ite, leb, length, ltb,
  none, panics, returns, some, true, ℕ, ◌%◌, ◌++◌, ◌+◌, ◌||◌, ◌∷◌,
}
use greatestworks.Base.Float32.{Float32}
use greatestworks.Base.Int.{pos, wrap_int32, ℤ, ℤ_discrete}
use greatestworks.Base.SyncMap.{SyncMap, keys, load, store}
use greatestworks.Login.Config.{
  EndPoint, Me, Status, Status-discrete, empty_status, ok_status, recommend_world_max_cnt,
}
use greatestworks.Login.Gateway.{get_end_point, get_recommend, is_exist, update_local_weight}
use greatestworks.Login.World.{World, WorldEndpoint}
use greatestworks.Login.Zone.Manager.{ZoneManager, get_gate_way}
use greatestworks.Login.Zone.Status.{measured}

-- `loginpb.WorldEndPointInfo`, as far as it is filled in.
pub record WorldEndPointInfo : Type 0 where
  pub zone_id : ℤ  -- int32
  pub s_id : String
  pub addr : String
  pub name : String
  pub p_idx : ℕ
  pub players : ℤ
  pub max : ℕ
  pub stat : Status

-- `none` stands for the error NoZoneId.
unfoldable pub recommend_gateway : ZoneManager → ℤ → ℕ → Outcome (Option EndPoint)
unfolding get_gate_way
recommend_gateway z zone r =
    ite (ℤ_discrete zone (pos 0)) (returns none) (elim (get_gate_way z zone) [
      | none ↦ returns none
      | some l ↦
          (ite (ℤ_discrete l.zone_id zone)
            (elim (get_recommend l r) [ returns e ↦ returns (some e) | panics ↦ panics ])
            (returns none))
    ])

unfoldable pub update_gateway_local_weight : ZoneManager → EndPoint → ℤ → ZoneManager × ℤ
unfolding get_gate_way
update_gateway_local_weight z gateway ratio = elim (get_gate_way z gateway.zone_id) [
  | none ↦ (z, ratio)
  | some l ↦
      (ite (ℤ_discrete l.zone_id gateway.zone_id)
        (let (l', ratio') = update_local_weight l (some gateway) ratio in
          (record z { gate_ways = store ℤ_discrete gateway.zone_id l' z.gate_ways }, ratio'))
        (z, ratio))
]

unfoldable pub exist_gateway : ZoneManager → ℤ → String → Outcome (Option EndPoint × Bool)
unfolding get_gate_way
exist_gateway z zone gateway_id = elim (get_gate_way z zone) [
  | none ↦ returns (none, false)
  | some l ↦
      (ite (ℤ_discrete l.zone_id zone)
        (elim (get_end_point l gateway_id) [ returns e ↦ returns (e, true) | panics ↦ panics ])
        (returns (none, false)))
]

unfoldable pub is_exist_gateway : ZoneManager → ℤ → String → Outcome (Option EndPoint × Bool)
unfolding get_gate_way
is_exist_gateway z zone gateway_id = elim (get_gate_way z zone) [
  | none ↦ returns (none, false)
  | some l ↦ ite (ℤ_discrete l.zone_id zone) (is_exist l gateway_id) (returns (none, false))
]

unfoldable pub zone_exist_for_gateway : ZoneManager → ℤ → Bool
zone_exist_for_gateway z zone = elim (load ℤ_discrete zone z.gate_ways) [
  | none ↦ false
  | some l ↦ true
]

unfoldable pub zone_exist_for_online : ZoneManager → ℤ → Bool
zone_exist_for_online z zone = elim (load ℤ_discrete zone z.worlds) [ none ↦ false | some w ↦ true ]

-- The keys are of type `int`, so `sid.(int32)` panics at the first one.
unfoldable pub get_zones_info : ZoneManager → Outcome (List ℤ)
get_zones_info z = elim z.gate_ways [ [] ↦ returns [] | l ∷ m ↦ panics ]

abbrev pub or_zero : Option ℤ → ℤ
or_zero none = pos 0
or_zero (some zone) = zone

module _ (fl : Float32) (me : Me) (now : ℤ) where
  -- The inner `Range` of `recommendZone`: the end points as it leaves them, and the two counts.
  abbrev pub count_stats : SyncMap String WorldEndpoint → SyncMap String WorldEndpoint × ℕ × ℕ
  count_stats [] = ([], 0, 0)
  count_stats ((key, e) ∷ m) =
      let (e', stat) = measured fl me now e in
      let (m', empty_cnt, ok_cnt) = count_stats m in
      (
        (key, e') ∷ m',
        ite (Status-discrete stat empty_status) (empty_cnt + 1) empty_cnt,
        ite (Status-discrete stat ok_status) (ok_cnt + 1) ok_cnt,
      )

  -- The `Range` of `recommendZone`: 0 stands for no zone.
  abbrev pub scan_zones : SyncMap ℤ World → SyncMap ℤ World × ℤ
  scan_zones [] = ([], pos 0)
  scan_zones ((zone, w) ∷ m) =
      let (eps, empty_cnt, ok_cnt) = count_stats w.end_points in
      let w' = record w { end_points = eps } in
      let rest : SyncMap ℤ World × ℤ =
        (let (m', rec_zone) = scan_zones m in ((zone, w') ∷ m', rec_zone)) in
      if ltb recommend_world_max_cnt empty_cnt || ltb 0 ok_cnt then ((zone, w') ∷ m, zone) else rest

  unfoldable pub recommend_zone : ZoneManager → ℕ → ZoneManager × ℤ
  recommend_zone z r =
      let (worlds, rec_zone) = scan_zones z.worlds in
      (
        record z { worlds = worlds },
        ite (ℤ_discrete rec_zone (pos 0))
            (or_zero (get_elem? (keys worlds) (r % length (keys worlds)))) rec_zone,
      )

  -- What the first `Range` of `RecommendZoneWorlds` tells of a world: no name and no players.
  abbrev pub short_info : WorldEndpoint → Status → WorldEndPointInfo
  short_info e stat = record {
    zone_id = wrap_int32 e.zone_id;
    s_id = e.id;
    addr = e.ip;
    name = "";
    p_idx = e.p_idx;
    players = pos 0;
    max = e.max;
    stat = stat;
  }

  abbrev pub full_info : WorldEndpoint → Status → WorldEndPointInfo
  full_info e stat = record (short_info e stat) { name = e.name; players = e.player_num }

  -- A `Range` of `RecommendZoneWorlds`, for the worlds of one status: the end points as it leaves
  -- them, and the list with what it appended.
  abbrev pub collect :
      Status
      → (WorldEndpoint → Status → WorldEndPointInfo)
      → ℤ
      → SyncMap String WorldEndpoint
      → List WorldEndPointInfo
      → SyncMap String WorldEndpoint × List WorldEndPointInfo
  collect wanted info zone [] worlds = ([], worlds)
  collect wanted info zone ((key, e) ∷ m) worlds =
      let skipped : SyncMap String WorldEndpoint × List WorldEndPointInfo =
        (let (m', ws) = collect wanted info zone m worlds in ((key, e) ∷ m', ws)) in
      let (e', stat) = measured fl me now e in
      let worlds' = ite (Status-discrete stat wanted) (worlds ++ info e stat ∷ []) worlds in
      let rest : SyncMap String WorldEndpoint × List WorldEndPointInfo =
        (let (m', ws) = collect wanted info zone m worlds' in ((key, e') ∷ m', ws)) in
      ite (ℤ_discrete e.zone_id zone)
        (if leb recommend_world_max_cnt (length worlds') then ((key, e') ∷ m, worlds') else rest)
        skipped

  abbrev pub second_range :
      ℤ
      → SyncMap String WorldEndpoint × List WorldEndPointInfo
      → SyncMap String WorldEndpoint × List WorldEndPointInfo
  second_range zone (eps, worlds) =
      if ltb (length worlds) recommend_world_max_cnt
      then collect ok_status full_info zone eps worlds
      else (eps, worlds)

  unfoldable pub recommend_zone_worlds :
      ZoneManager → ℤ → ZoneManager × Bool × List WorldEndPointInfo
  recommend_zone_worlds z zone = elim (load ℤ_discrete zone z.worlds) [
    | none ↦ (z, false, [])
    | some w ↦
        (let (eps, worlds) =
            second_range zone (collect empty_status short_info zone w.end_points []) in
          (
            record z { worlds = store ℤ_discrete zone (record w { end_points = eps }) z.worlds },
            ltb 0 (length worlds),
            worlds,
          ))
  ]

  -- The `Range` of `GetZoneOnlineList`.
  abbrev pub list_online :
      ℤ → SyncMap String WorldEndpoint → SyncMap String WorldEndpoint × List WorldEndPointInfo
  list_online zone [] = ([], [])
  list_online zone ((key, e) ∷ m) =
      let (m', worlds) = list_online zone m in
      let (e', stat) = measured fl me now e in
      ite (ℤ_discrete e.zone_id zone) ((key, e') ∷ m', full_info e stat ∷ worlds)
        ((key, e) ∷ m', worlds)

  unfoldable pub get_zone_online_list : ZoneManager → ℤ → ZoneManager × List WorldEndPointInfo
  get_zone_online_list z zone = elim (load ℤ_discrete zone z.worlds) [
    | none ↦ (z, [])
    | some w ↦
        (let (eps, worlds) = list_online zone w.end_points in
          (
            record z { worlds = store ℤ_discrete zone (record w { end_points = eps }) z.worlds },
            worlds,
          ))
  ]
