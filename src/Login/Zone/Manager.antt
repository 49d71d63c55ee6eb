-- ===== src/Login/Zone/Manager.antt =====
-- The state of the zone manager, and its upkeep from Consul.
use greatestworks.Login.Gateway
use greatestworks.Login.World
use greatestworks.Base.{List, Option, String, [], if◌then◌else◌, ite, none, some, ◌^◌, ◌∷◌}
use greatestworks.Base.Float32.{Float32}
use greatestworks.Base.Int.{mod_ℤ, pos, ℤ, ℤ_discrete}
use greatestworks.Base.SyncMap.{SyncMap, delete, load, store}
use greatestworks.Login.Config.{Me, ServiceEntry}
use greatestworks.Login.Gateway.{GateWay}
use greatestworks.Login.World.{World, WorldEndpoint, new_world, update_online}

-- The fields of Consul's performance data that the login server reads.
pub record Performance : Type 0 where
  pub zid : ℤ
  pub p_idx : ℤ
  pub player_num : ℤ  -- int32
  pub max_player_num : ℤ  -- int32
  pub begin_tm : ℤ  -- int64

pub record ZoneManager : Type 0 where
  pub gate_ways : SyncMap ℤ GateWay
  pub worlds : SyncMap ℤ World

unfoldable pub new_zone_manager : ZoneManager
new_zone_manager = record { gate_ways = []; worlds = [] }

unfoldable pub get_gate_way : ZoneManager → ℤ → Option GateWay
get_gate_way z zone = load ℤ_discrete zone z.gate_ways

unfoldable pub get_world : ZoneManager → ℤ → Option World
get_world z zone = load ℤ_discrete zone z.worlds

-- Each gateway list is cleared in place; a list that is then empty has its zone's worlds dropped.
unfoldable pub clear_gate_ways :
    List ServiceEntry → SyncMap ℤ GateWay → SyncMap ℤ World → SyncMap ℤ GateWay × SyncMap ℤ World
clear_gate_ways services [] worlds = ([], worlds)
clear_gate_ways services ((key, l) ∷ m) worlds =
    let (l', zone, is_empty) = Gateway.clear_invalid l services in
    let worlds' = if is_empty then delete ℤ_discrete zone worlds else worlds in
    let (m', worlds'') = clear_gate_ways services m worlds' in ((key, l') ∷ m', worlds'')

unfoldable pub clear_invalid_gate_way : ZoneManager → List ServiceEntry → ZoneManager
unfolding clear_gate_ways
clear_invalid_gate_way z services =
    let (gate_ways, worlds) = clear_gate_ways services z.gate_ways z.worlds in
    record { gate_ways = gate_ways; worlds = worlds }

-- The worlds of each zone are cleared in place; the zones to drop are collected beside them.
unfoldable pub clear_worlds : List ServiceEntry → SyncMap ℤ World → SyncMap ℤ World × List ℤ
clear_worlds entries [] = ([], [])
clear_worlds entries ((key, w) ∷ m) =
    let (w', zone, is_empty) = World.clear_invalid w entries in
    let (m', dropped) = clear_worlds entries m in
    ((key, w') ∷ m', if is_empty then zone ∷ dropped else dropped)

abbrev pub delete_all : List ℤ → SyncMap ℤ World → SyncMap ℤ World
delete_all [] m = m
delete_all (zone ∷ zones) m = delete_all zones (delete ℤ_discrete zone m)

-- With each world under its own zone's id, `Delete` takes out the entry that `Range` visits.
unfoldable pub clear_invalid_world : ZoneManager → List ServiceEntry → ZoneManager
unfolding clear_worlds
clear_invalid_world z entries =
    let (worlds, dropped) = clear_worlds entries z.worlds in
    record z { worlds = delete_all dropped worlds }

unfoldable pub discovery_gate_way : ZoneManager → Option (List ServiceEntry) → ZoneManager
unfolding clear_invalid_gate_way
discovery_gate_way z none = z
discovery_gate_way z (some services) = clear_invalid_gate_way z services

module _ (fl : Float32) (me : Me) (now : ℤ) where
  unfoldable pub update_world_end_point : ZoneManager → WorldEndpoint → ZoneManager
  update_world_end_point z e = elim (load ℤ_discrete e.zone_id z.worlds) [
    | none ↦ (record z {
      worlds =
          store ℤ_discrete e.zone_id (update_online fl me now (new_world e.zone_id) e).0 z.worlds;
    })
    | some w ↦
        (ite (ℤ_discrete w.zone_id e.zone_id)
          (record z {
            worlds = store ℤ_discrete e.zone_id (update_online fl me now w e).0 z.worlds;
          })
          z)
  ]

  module _ (performance_data : String → Performance) where
    -- The end point that `discoveryWorld` makes of a service entry with a tag.
    abbrev pub end_point : ServiceEntry → String → WorldEndpoint
    end_point s tag =
        let performance = performance_data tag in
        record {
          zone_id = performance.zid;
          id = s.id;
          ip = s.address;
          port = s.port;
          name = s.service;
          player_num = performance.player_num;
          p_idx = mod_ℤ performance.p_idx (2 ^ 32);
          max =
              ite (ℤ_discrete performance.max_player_num (pos 0)) me.max_world_player_num
                (mod_ℤ performance.max_player_num (2 ^ 32));
          begin_tm = performance.begin_tm;
          init_fake_player_num = pos 0;
          fake_server_cnt = me.players_server_cnt;
        }

    unfoldable pub update_worlds : ZoneManager → List ServiceEntry → ZoneManager
    unfolding update_world_end_point
    update_worlds z [] = z
    update_worlds z (s ∷ services) =
        update_worlds
          (elim s.tags [ [] ↦ z | tag ∷ tags ↦ update_world_end_point z (end_point s tag) ])
          services

    unfoldable pub discovery_world : ZoneManager → Option (List ServiceEntry) → ZoneManager
    unfolding clear_invalid_world update_worlds
    discovery_world z none = z
    discovery_world z (some services) = update_worlds (clear_invalid_world z services) services

    -- `GetZoneManager` runs this each time it is called, on what Consul answers then.
    unfoldable pub discovery :
        ZoneManager → Option (List ServiceEntry) → Option (List ServiceEntry) → ZoneManager
    unfolding discovery_gate_way discovery_world
    discovery z gateways worlds = discovery_world (discovery_gate_way z gateways) worlds
