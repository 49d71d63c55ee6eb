-- ===== src/Login/Config.antt =====
-- server/login/config/me.go, and the service entries that the login server reads from Consul.
use greatestworks.Base.{List, String, ℕ}
use greatestworks.Base.Int.{pos, ℤ}

-- A gateway as the login server knows it.
pub record EndPoint : Type 0 where
  pub zone_id : ℤ
  pub id : String
  pub ip : String
  pub port : ℤ
  pub name : String
  pub weights : ℤ
  pub inner_ip : String

-- The load levels, int(x * float32(1000)).
abbrev pub level0 : ℤ
level0 = pos 10

abbrev pub level1 : ℤ
level1 = pos 300

abbrev pub level2 : ℤ
level2 = pos 500

abbrev pub level3 : ℤ
level3 = pos 900

-- What the login server reads of Consul's `api.ServiceEntry`, a type of a third party.
pub record ServiceEntry : Type 0 where
  pub id : String
  pub address : String
  pub port : ℤ
  pub service : String
  pub tags : List String

-- The settings that the login server reads for the worlds.
pub record Me : Type 0 where
  pub player_num_hour : ℤ  -- int32
  pub players_delta_cnt : ℤ  -- int32
  pub players_server_cnt : ℤ  -- int32
  pub max_world_player_num : ℕ  -- uint32
  pub time_stamp : ℤ

abbrev pub hours_seconds : ℤ
hours_seconds = pos 3600

pub data Status : Type 0 where
  close_status empty_status ok_status full_status : Status

pub Status-discrete : Discrete Status
Status-discrete = hlevel

abbrev pub recommend_world_max_cnt : ℕ
recommend_world_max_cnt = 5
