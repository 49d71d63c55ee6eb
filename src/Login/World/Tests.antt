-- ===== src/Login/World/Tests.antt =====
-- Worlds on concrete inputs.
use greatestworks.Base.{String_discrete, [], refl, some, ◌∷◌, ◌≡◌}
use greatestworks.Base.Float32.{thousandths}
use greatestworks.Base.Int.{pos, wrap, wrap_int32, ℤ_discrete, ◌-ℤ◌}
use greatestworks.Base.SyncMap.{load}
use greatestworks.Login.Config.{Me}
use greatestworks.Login.World.{World, WorldEndpoint, fake_players, update_online}
use greatestworks.Login.World.Online.{load-update_online, update_online_keeps_fake}

abbrev pub settings : Me
settings = record {
  player_num_hour = pos 2;
  players_delta_cnt = pos 100;
  players_server_cnt = pos 3;
  max_world_player_num = 3000;
  time_stamp = pos 0;
}

abbrev pub world_one : WorldEndpoint
world_one = record {
  zone_id = pos 1;
  id = "w1";
  ip = "10.0.0.2";
  port = pos 9100;
  name = "one";
  player_num = pos 40;
  p_idx = 1;
  max = 1000;
  begin_tm = pos 1000;
  init_fake_player_num = pos 0;
  fake_server_cnt = pos 3;
}

abbrev pub zone_one : World
zone_one = record { end_points = ("w1", world_one) ∷ []; zone_id = pos 1 }

fake_players_thousand : fake_players thousandths settings (pos 0) 1000 ≡ pos 600
unfolding fake_players wrap_int32 wrap ◌-ℤ◌
fake_players_thousand = refl

abbrev grown : WorldEndpoint
grown = record world_one { player_num = pos 55; max = 2000 }

load-update_online_example :
    load String_discrete "w1"
      (update_online thousandths settings (pos 2000) zone_one grown).0.end_points
    ≡ some grown
unfolding String_discrete ℤ_discrete
load-update_online_example = load-update_online thousandths settings (pos 2000) zone_one grown "w1"

update_online_keeps_fake_example : grown.init_fake_player_num ≡ world_one.init_fake_player_num
unfolding String_discrete
update_online_keeps_fake_example =
    update_online_keeps_fake thousandths settings (pos 2000) zone_one grown world_one refl grown
      load-update_online_example
