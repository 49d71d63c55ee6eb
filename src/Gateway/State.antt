-- ===== src/Gateway/State.antt =====
-- The state of the gateway server: server/gateway/client/{session,manager}.go,
-- server/gateway/world/{session,manager}.go. Sessions are pointers in Go: a reference is a number,
-- and the state holds the session that each one points to.
use greatestworks.Base.{
  Bool, List, Option, String, String_discrete, false, if◌then◌else◌, none, some, ℕ, ◌==◌,
}
use greatestworks.Base.Int.{ℤ}
use greatestworks.Base.SyncMap.{SyncMap, load}
use greatestworks.Gateway.Network.{Network, Redis}

-- client.Session. The routers are third-party.
pub record Session (n : Network) : Type 0 where
  pub tcp : n.Tcp
  pub conn_id : ℤ
  pub user_id : ℕ
  pub world_server_id : String
  pub is_bind_world_server : Bool
  pub join_world_server_id : String
  pub is_disconnected : Bool
  pub disconnected_time : ℤ
  pub disconnected_messages : List (List ℕ)
  pub is_reconnection : Bool
  pub remote_ip : String
  pub last_ping_time : ℤ
  pub last_check_time : ℤ
  pub request_speed : ℤ
  pub req_frequency : ℤ
  pub registered : Option (List ℕ)  -- the forwarded messages, once they are registered
  pub proc_index : ℕ

-- world.Session.
pub record WorldSession (n : Network) : Type 0 where
  pub tcp : n.Tcp
  pub session_id : String
  pub server_addr : String
  pub handle_messages : List ℕ
  pub players : ℤ
  pub pro_index : ℕ
  pub name : String
  pub max_player : ℤ
  pub zone_id : ℤ

-- What a handler reads besides: the clock, in nanoseconds and seconds, the configuration and the
-- game master's settings.
pub record Env : Type 0 where
  pub now : ℤ
  pub unix : ℤ
  pub zone_id : ℤ
  pub tcp_address : String
  pub pri_msg_buff_size : ℤ
  pub is_open_now : Bool
  pub ip_white_list : SyncMap String Bool
  pub uid_white_list : SyncMap String Bool

-- client.Manager, world.Manager, the sessions that pointers point to, and Redis.
pub record State (n : Network) (r : Redis) : Type 0 where
  pub clients : SyncMap ℤ ℕ
  pub userid2clients : SyncMap ℕ ℕ
  pub players : ℤ
  pub sessions : ℕ → Session n
  pub endpoints : SyncMap String ℕ
  pub worlds : ℕ → WorldSession n
  pub redis : r.Store

-- IsIpInWhiteList and IsUidInWhiteList of server/gateway/gm/gm.go.
abbrev pub is_in_white_list : String → SyncMap String Bool → Bool
is_in_white_list k m = elim (load String_discrete k m) [ none ↦ false | some b ↦ b ]

module _ {n : Network} {r : Redis} where
  -- A write through a pointer to a client's session, and to a world's.
  abbrev pub put : ℕ → Session n → State n r → State n r
  put c v s = record s { sessions = λ d. if d == c then v else s.sessions d }

  abbrev pub put_world : ℕ → WorldSession n → State n r → State n r
  put_world w v s = record s { worlds = λ d. if d == w then v else s.worlds d }

  abbrev pub modify : ℕ → (Session n → Session n) → State n r → State n r
  modify c f s = put c (f (s.sessions c)) s
