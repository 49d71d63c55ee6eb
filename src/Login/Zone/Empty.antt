-- ===== src/Login/Zone/Empty.antt =====
-- The zone manager never learns of a gateway.
use greatestworks.Base.{
  List, Option, String, [], arith, false, none, refl, returns, some, ℕ, ◌∙◌, ◌∷◌, ◌≡◌,
}
use greatestworks.Base.Float32.{Float32}
use greatestworks.Base.Int.{ℤ}
use greatestworks.Base.SyncMap.{SyncMap}
use greatestworks.Login.Config.{EndPoint, Me, ServiceEntry}
use greatestworks.Login.World.{World, WorldEndpoint}
use greatestworks.Login.Zone.Manager.{
  Performance, ZoneManager, clear_gate_ways, clear_invalid_world, discovery, discovery_gate_way,
  discovery_world, end_point, get_gate_way, new_zone_manager, update_world_end_point, update_worlds,
}
use greatestworks.Login.Zone.Query.{get_query_world}
use greatestworks.Login.Zone.Recommend.{
  get_zone_online_list, get_zones_info, is_exist_gateway, recommend_gateway, recommend_zone,
  recommend_zone_worlds, update_gateway_local_weight,
}

clear_gate_ways_none :
    (services : List ServiceEntry) (worlds : SyncMap ℤ World)
    → clear_gate_ways services [] worlds ≡ ([], worlds)
unfolding clear_gate_ways
clear_gate_ways_none services worlds = refl

module _ (fl : Float32) (me : Me) (now : ℤ) (performance_data : String → Performance) where
  gate_ways-update_world_end_point :
      (z : ZoneManager) (e : WorldEndpoint)
      → (update_world_end_point fl me now z e).gate_ways ≡ z.gate_ways
  unfolding update_world_end_point
  gate_ways-update_world_end_point z e = ground arith

  gate_ways-tagged :
      (z : ZoneManager) (s : ServiceEntry) (tags : List String)
      → let z' : ZoneManager = elim tags [
        | [] ↦ z
        | tag ∷ tags ↦
            update_world_end_point fl me now z (end_point fl me now performance_data s tag)
      ] in
        z'.gate_ways ≡ z.gate_ways
  gate_ways-tagged z s [] = refl
  gate_ways-tagged z s (tag ∷ tags) =
      gate_ways-update_world_end_point z (end_point fl me now performance_data s tag)

  gate_ways-update_worlds :
      (z : ZoneManager) (services : List ServiceEntry)
      → (update_worlds fl me now performance_data z services).gate_ways ≡ z.gate_ways
  unfolding update_worlds
  gate_ways-update_worlds z [] = refl
  gate_ways-update_worlds z (s ∷ services) =
      let z' : ZoneManager = elim s.tags [
        | [] ↦ z
        | tag ∷ tags ↦
            update_world_end_point fl me now z (end_point fl me now performance_data s tag)
      ] in
      gate_ways-update_worlds z' services ∙ gate_ways-tagged z s s.tags

  gate_ways-discovery_gate_way :
      (z : ZoneManager) (gateways : Option (List ServiceEntry))
      → z.gate_ways ≡ []
      → (discovery_gate_way z gateways).gate_ways ≡ []
  unfolding discovery_gate_way
  gate_ways-discovery_gate_way z none h = h
  gate_ways-discovery_gate_way z (some services) h =
      ground (arith, clear_gate_ways_none services z.worlds)

  gate_ways-discovery :
      (z : ZoneManager) (gateways worlds : Option (List ServiceEntry))
      → z.gate_ways ≡ []
      → (discovery fl me now performance_data z gateways worlds).gate_ways ≡ []
  unfolding discovery discovery_world
  gate_ways-discovery z gateways none h = gate_ways-discovery_gate_way z gateways h
  gate_ways-discovery z gateways (some services) h =
      let z' = discovery_gate_way z gateways in
      gate_ways-update_worlds (clear_invalid_world z' services) services
      ∙ gate_ways-discovery_gate_way z gateways h

-- What can change the zone manager: the discovery that every `GetZoneManager` starts, and the
-- calls that the login handler makes on its result.
module _ (fl : Float32) (me : Me) (performance_data : String → Performance) where
  pub data Reach : ZoneManager → Type 0 where
    fresh : Reach new_zone_manager
    discovers :
        {z : ZoneManager} (now : ℤ) (gateways worlds : Option (List ServiceEntry))
        → Reach z
        → Reach (discovery fl me now performance_data z gateways worlds)
    recommends :
        {z : ZoneManager} (now : ℤ) (r : ℕ) → Reach z → Reach (recommend_zone fl me now z r).0
    offers_worlds :
        {z : ZoneManager} (now zone : ℤ)
        → Reach z
        → Reach (recommend_zone_worlds fl me now z zone).0
    lists_worlds :
        {z : ZoneManager} (now zone : ℤ) → Reach z → Reach (get_zone_online_list fl me now z zone).0
    weighs :
        {z : ZoneManager} (gateway : EndPoint) (ratio : ℤ)
        → Reach z
        → Reach (update_gateway_local_weight z gateway ratio).0
    queries :
        {z : ZoneManager} (now : ℤ) (p_idx : ℕ)
        → Reach z
        → Reach (get_query_world fl me now z p_idx).0

  gate_ways-offers_worlds :
      (z : ZoneManager) (now zone : ℤ)
      → (recommend_zone_worlds fl me now z zone).0.gate_ways ≡ z.gate_ways
  unfolding recommend_zone_worlds
  gate_ways-offers_worlds z now zone = ground arith

  gate_ways-lists_worlds :
      (z : ZoneManager) (now zone : ℤ)
      → (get_zone_online_list fl me now z zone).0.gate_ways ≡ z.gate_ways
  unfolding get_zone_online_list
  gate_ways-lists_worlds z now zone = ground arith

  gate_ways-weighs :
      (z : ZoneManager) (gateway : EndPoint) (ratio : ℤ)
      → z.gate_ways ≡ []
      → (update_gateway_local_weight z gateway ratio).0.gate_ways ≡ []
  unfolding update_gateway_local_weight get_gate_way
  gate_ways-weighs z gateway ratio h = ground arith

  gate_ways-queries :
      (z : ZoneManager) (now : ℤ) (p_idx : ℕ)
      → (get_query_world fl me now z p_idx).0.gate_ways ≡ z.gate_ways
  unfolding get_query_world
  gate_ways-queries z now p_idx = ground arith

  gate_ways-recommends :
      (z : ZoneManager) (now : ℤ) (r : ℕ) → (recommend_zone fl me now z r).0.gate_ways ≡ z.gate_ways
  unfolding recommend_zone
  gate_ways-recommends z now r = ground arith

  Reach-gate_ways : {z : ZoneManager} → Reach z → z.gate_ways ≡ []
  unfolding new_zone_manager
  Reach-gate_ways fresh = refl
  Reach-gate_ways (discovers {z} now gateways worlds r) =
      gate_ways-discovery fl me now performance_data z gateways worlds (Reach-gate_ways r)
  Reach-gate_ways (recommends {z} now r h) = gate_ways-recommends z now r ∙ Reach-gate_ways h
  Reach-gate_ways (offers_worlds {z} now zone h) =
      gate_ways-offers_worlds z now zone ∙ Reach-gate_ways h
  Reach-gate_ways (lists_worlds {z} now zone h) =
      gate_ways-lists_worlds z now zone ∙ Reach-gate_ways h
  Reach-gate_ways (weighs {z} gateway ratio h) =
      gate_ways-weighs z gateway ratio (Reach-gate_ways h)
  Reach-gate_ways (queries {z} now p_idx h) = gate_ways-queries z now p_idx ∙ Reach-gate_ways h

  -- In every state that the login server can reach, no zone has a gateway: no gateway is
  -- recommended for any zone, none is found by its id, and the list of zones is empty.
  pub Reach-no_gateway :
      {z : ZoneManager} (zone : ℤ) (gateway_id : String) (r : ℕ)
      → Reach z
      → (recommend_gateway z zone r ≡ returns none)
        × (is_exist_gateway z zone gateway_id ≡ returns (none, false))
        × (get_gate_way z zone ≡ none)
        × (get_zones_info z ≡ returns [])
  unfolding recommend_gateway is_exist_gateway get_gate_way get_zones_info
  Reach-no_gateway zone gateway_id r h = ground (arith, Reach-gate_ways h)
