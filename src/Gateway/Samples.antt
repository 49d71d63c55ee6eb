-- ===== src/Gateway/Samples.antt =====
-- A small gateway, for the tests.
use greatestworks.Base.{String, [], false, if◌then◌else◌, none, some, true, ℕ, ◌==◌, ◌∷◌}
use greatestworks.Base.Int.{pos}
use greatestworks.Gateway.Handlers.{LoginRequest, ReconnectRequest}
use greatestworks.Gateway.Network.{Accounts, Wire, accounts, wires}
use greatestworks.Gateway.State.{Env, Session, State, WorldSession}

abbrev pub gateway_address : String
gateway_address = "10.0.0.1:9000"

abbrev pub test_env : Env
test_env = record {
  now = pos 100000000000;
  unix = pos 100;
  zone_id = pos 1;
  tcp_address = gateway_address;
  pri_msg_buff_size = pos 4;
  is_open_now = true;
  ip_white_list = [];
  uid_white_list = [];
}

abbrev pub open_wire : Wire
open_wire = record { is_verified = false; closed = false; sent = [] }

abbrev pub blank : Session wires
blank = record {
  tcp = open_wire;
  conn_id = pos 0;
  user_id = 0;
  world_server_id = "";
  is_bind_world_server = false;
  join_world_server_id = "";
  is_disconnected = false;
  disconnected_time = pos 0;
  disconnected_messages = [];
  is_reconnection = false;
  remote_ip = "";
  last_ping_time = pos 100000000000;
  last_check_time = pos 60;
  request_speed = pos 0;
  req_frequency = pos 0;
  registered = none;
  proc_index = 0;
}

abbrev pub blank_world : WorldSession wires
blank_world = record {
  tcp = open_wire;
  session_id = "w1";
  server_addr = "10.0.0.5";
  handle_messages = [];
  players = pos 50;
  pro_index = 1;
  name = "one";
  max_player = pos 100;
  zone_id = pos 1;
}

-- User 7 was on connection 1 and lost it; connection 2 is new.
abbrev pub lost : Session wires
lost = record blank {
  tcp = record open_wire { is_verified = true; closed = true };
  conn_id = pos 1;
  user_id = 7;
  world_server_id = "w1";
  is_disconnected = true;
  disconnected_time = pos 90000000000;
}

abbrev pub newcomer : Session wires
newcomer = record blank { conn_id = pos 2 }

abbrev pub two_sessions : ℕ → Session wires
two_sessions c = if c == 1 then lost else if c == 2 then newcomer else blank

abbrev pub redis_data : Accounts
redis_data = record {
  tokens = λ u. if u == 7 then "t7" else if u == 8 then "t8" else "";
  gateways = λ u. some gateway_address;
}

abbrev pub start : State wires accounts
start = record {
  clients = [];
  userid2clients = [];
  players = pos 0;
  sessions = λ c. blank;
  endpoints = [];
  worlds = λ w. blank_world;
  redis = redis_data;
}

abbrev pub town : State wires accounts
town = record start {
  clients = (pos 1, 1) ∷ (pos 2, 2) ∷ [];
  userid2clients = (7, 1) ∷ [];
  players = pos 2;
  sessions = two_sessions;
  endpoints = ("w1", 0) ∷ [];
}

abbrev pub login_seven : LoginRequest
login_seven = record { userid = 7; token = "t7"; zone_id = pos 1 }

abbrev pub reconnect_seven : ReconnectRequest
reconnect_seven = record { userid = 7; token = "t7"; zone_id = pos 1; version = "1.0" }
