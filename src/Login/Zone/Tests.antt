-- ===== src/Login/Zone/Tests.antt =====
-- The zone manager on concrete inputs.
use greatestworks.Base.{
  All, In, [], arith, false, length, ltb, none, refl, returns, some, ◌∷◌, ◌≡◌, ◌≤◌, ◌⊎◌,
}
use greatestworks.Base.Float32.{thousandths, thousandths-IsMonotone}
use greatestworks.Base.Int.{pos, wrap, wrap_int, wrap_int32, ◌*ℤ◌, ◌-ℤ◌}
use greatestworks.Base.SyncMap.{keys}
use greatestworks.Login.Config.{empty_status, ok_status}
use greatestworks.Login.Samples.{gateway_entry, performance, settings, world_entry}
use greatestworks.Login.World.{World, WorldEndpoint, age, fake_period}
use greatestworks.Login.Zone.Empty.{Reach-no_gateway, discovers, fresh}
use greatestworks.Login.Zone.Limits.{IsOffer, recommend_zone_lem, recommend_zone_worlds_lem}
use greatestworks.Login.Zone.Load.{
  measured-after_period, rank, rank-measured, world_metrics-eq-process_online_stat,
}
use greatestworks.Login.Zone.Manager.{ZoneManager, discovery, get_gate_way, new_zone_manager}
use greatestworks.Login.Zone.Recommend.{
  get_zones_info, is_exist_gateway, recommend_gateway, recommend_zone, recommend_zone_worlds,
}
use greatestworks.Login.Zone.Status.{is_faking, measured, process_online_stat, world_metrics}

abbrev world_one : WorldEndpoint
world_one = record {
  zone_id = pos 1;
  id = "w1";
  ip = "10.0.0.2";
  port = pos 9100;
  name = "one";
  player_num = pos 40;
  p_idx = 1;
  max = 1000;
  begin_tm = pos 1000;
  init_fake_player_num = pos 600;
  fake_server_cnt = pos 3;
}

abbrev world_two : WorldEndpoint
world_two = record world_one { id = "w2"; p_idx = 7; player_num = pos 300 }

abbrev worlds : World
worlds = record { end_points = ("w1", world_one) ∷ ("w2", world_two) ∷ []; zone_id = pos 1 }

abbrev manager : ZoneManager
manager = record { gate_ways = []; worlds = (pos 1, worlds) ∷ [] }

-- Within the first two hours the made-up players count.
full_in_first_hour : (measured thousandths settings (pos 2000) world_one).1 ≡ ok_status
unfolding measured age fake_period wrap_int wrap_int32 wrap ◌-ℤ◌ ◌*ℤ◌
full_in_first_hour = refl

world_metrics-eq-process_online_stat_example :
    world_metrics thousandths settings (pos 2000) (some world_one)
    ≡ process_online_stat thousandths settings (pos 2000) (some world_one)
world_metrics-eq-process_online_stat_example =
    world_metrics-eq-process_online_stat thousandths settings (pos 2000) (some world_one)

rank-measured_example :
    rank (measured thousandths settings (pos 2000) world_two).1
    ≤ rank (measured thousandths settings (pos 2000) (record world_two { player_num = pos 900 })).1
rank-measured_example =
    rank-measured thousandths settings (pos 2000) world_two (pos 900) thousandths-IsMonotone
      (omega arith) refl

measured-after_period_example :
    (is_faking thousandths settings
        (pos 9000)
        (measured thousandths settings (pos 9000) world_one).0
      ≡ false)
    × ((measured thousandths settings (pos 9000) world_one).0.player_num ≡ pos 40)
    × ((measured thousandths settings (pos 9000) world_one).1 ≡ empty_status)
measured-after_period_example =
    measured-after_period thousandths settings (pos 9000) world_one (omega arith)
      (unfold age fake_period wrap_int wrap_int32 wrap ◌-ℤ◌ ◌*ℤ◌ in refl) (omega arith)

recommend_zone_worlds_lem_example :
    let r = recommend_zone_worlds thousandths settings (pos 9000) manager (pos 1) in
    (length r.2 ≤ 5)
    × All (IsOffer thousandths settings (pos 9000) (pos 1)) r.2
    × (r.1 ≡ ltb 0 (length r.2))
recommend_zone_worlds_lem_example =
    recommend_zone_worlds_lem thousandths settings (pos 9000) manager (pos 1)

recommend_zone_lem_example :
    let r = recommend_zone thousandths settings (pos 9000) manager 5 in
    (keys r.0.worlds ≡ pos 1 ∷ []) × ((pos 1 ∷ [] ≡ []) × (r.1 ≡ pos 0) ⊎ In r.1 (pos 1 ∷ []))
recommend_zone_lem_example = recommend_zone_lem thousandths settings (pos 9000) manager 5

abbrev discovered : ZoneManager
discovered =
    discovery thousandths settings (pos 2000) performance new_zone_manager
      (some (gateway_entry ∷ [])) (some (world_entry ∷ []))

Reach-no_gateway_example :
    (recommend_gateway discovered (pos 1) 3 ≡ returns none)
    × (is_exist_gateway discovered (pos 1) "g" ≡ returns (none, false))
    × (get_gate_way discovered (pos 1) ≡ none)
    × (get_zones_info discovered ≡ returns [])
Reach-no_gateway_example =
    Reach-no_gateway thousandths settings performance (pos 1) "g" 3
      (discovers (pos 2000) (some (gateway_entry ∷ [])) (some (world_entry ∷ [])) fresh)
