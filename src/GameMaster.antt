-- ===== src/GameMaster.antt =====
-- The game master of a gateway, which opens and closes its door: server/gateway/gm/gm.go. The
-- texts shown to players are kept as what they are formatted from; what is sent to all players is
-- kept, the last message first.
pub mod CountDown
pub mod Door
pub mod Schedule
pub mod Order
mod Tests
use greatestworks.Base.{
  Bool, List, Option, String, String_discrete, [], false, if◌then◌else◌, ite, none, not, some, suc,
  true, ℕ, ◌&&◌, ◌||◌, ◌∷◌,
}
use greatestworks.Base.Int.{leb_ℤ, pos, wrap_int, wrap_int32, ℤ, ℤ_discrete, ◌*ℤ◌, ◌+ℤ◌}
use greatestworks.Base.SyncMap.{SyncMap, store}
use greatestworks.Base.Text.{Text, codes, parse_int, split_string_to_int32_slice, text_eq, to_lower}

-- The texts that Sprintf makes. The time maintenance takes is told where it is known.
pub data Tip : Type 0 where
  closing_in_minutes closing_in_seconds : ℤ → Option ℤ → Text → Tip
  maintained_minutes : ℤ → Text → Tip
  maintained_soon : Tip

pub data Notice : Type 0 where
  system_message : Tip → Notice
  kick : Notice

pub record Gm : Type 0 where
  pub is_open_now : Bool
  pub local_start_tm : ℤ
  pub fetch_interval : ℤ
  pub local_server_id : Text
  pub local_server_type : Text
  pub opt : Text
  pub after_sec : ℤ
  pub opt_sec : ℤ
  pub opts_desc : Text
  pub kickoff_user : ℤ
  pub last_fetch_time : ℤ
  pub opt_time : ℤ
  pub last_notify_time : ℤ
  pub show_tips : Option Tip
  pub ip_white_list : SyncMap String Bool
  pub uid_white_list : SyncMap String Bool
  pub local_zone : ℤ
  pub sent : List Notice

-- DealGmCommandRequest of gm/param.go: the fields that are read.
pub record Command : Type 0 where
  pub opt : Text
  pub opt_time : ℤ
  pub target : Text
  pub after_min : Text
  pub ops_min : Text
  pub kickoff_user : Text
  pub ops_desc : Text
  pub zones : Text

-- What Redis holds for the gateway: nothing, a text that is no JSON of a command, or a command.
pub data Notify : Type 0 where
  absent broken : Notify
  command : Command → Notify

-- What a tick reads from outside: the clock, rand.Intn(60), and Redis.
pub record Tick : Type 0 where
  pub now : ℤ
  pub rand : ℕ
  pub notify : Notify
  pub ips : SyncMap String String
  pub uids : SyncMap String String

abbrev pub close_door : Text
close_door = codes "close_door"

abbrev pub open_door : Text
open_door = codes "open_door"

unfoldable pub init : ℤ → Text → Text → ℤ → Bool → ℤ → Gm
unfolding to_lower
init start_tm server_id server_type fetch_interval is_open_now zone_id = record {
  is_open_now = is_open_now;
  local_start_tm = start_tm;
  fetch_interval = fetch_interval;
  local_server_id = to_lower server_id;
  local_server_type = to_lower server_type;
  opt = [];
  after_sec = pos 0;
  opt_sec = pos 0;
  opts_desc = [];
  kickoff_user = pos 0;
  last_fetch_time = pos 0;
  opt_time = pos 0;
  last_notify_time = pos 0;
  show_tips = none;
  ip_white_list = ("127.0.0.1", true) ∷ [];
  uid_white_list = [];
  local_zone = wrap_int32 zone_id;
  sent = [];
}

-- The loops of fetchIpWhiteList and fetchUseridWhiteList over what HGetAll answers.
unfoldable pub fetch_white_list : SyncMap String String → SyncMap String Bool → SyncMap String Bool
fetch_white_list [] m = m
fetch_white_list ((k, v) ∷ l) m =
    fetch_white_list l (store String_discrete k (ite (String_discrete v "1") true false) m)

unfoldable pub fetch_ip_white_list : Tick → Gm → Gm
fetch_ip_white_list t g = record g { ip_white_list = fetch_white_list t.ips g.ip_white_list }

unfoldable pub fetch_userid_white_list : Tick → Gm → Gm
fetch_userid_white_list t g = record g { uid_white_list = fetch_white_list t.uids g.uid_white_list }

-- What is assigned before a later text is refused stays assigned.
unfoldable pub update_close_door_info : Tick → Command → Gm → Gm
update_close_door_info t info g = elim (parse_int 64 info.after_min) [
  | none ↦ g
  | some after_min ↦
      let after = wrap_int (after_min *ℤ pos 60) in
      let g' = record g { after_sec = wrap_int (after +ℤ pos (suc t.rand)) } in
      elim (parse_int 64 info.ops_min) [
        | none ↦ g'
        | some ops_min ↦
            let g'' = record g' { opt_sec = wrap_int (ops_min *ℤ pos 60) } in
            elim (parse_int 64 info.kickoff_user) [
              | none ↦ g''
              | some kickoff ↦ record g'' {
                opt_time = info.opt_time;
                opt = to_lower info.opt;
                kickoff_user = kickoff;
                opts_desc = info.ops_desc;
              }
            ]
      ]
]

unfoldable pub update_open_door_info : Command → Gm → Gm
update_open_door_info info g = record g {
  is_open_now = true;
  opt_time = info.opt_time;
  opt = [];
  after_sec = pos 0;
  opt_sec = pos 0;
  kickoff_user = pos 0;
  show_tips = none;
}

-- The loop over the zones of a command.
unfoldable pub is_wanted : ℤ → List ℤ → Bool
is_wanted local_zone [] = false
is_wanted local_zone (zid ∷ zids) =
    (leb_ℤ (pos 0) zid && ite (ℤ_discrete zid local_zone) true false) || is_wanted local_zone zids

-- Whether a command is for this gateway, and newer than the last one.
unfoldable pub is_addressed : Command → Gm → Bool
is_addressed req g =
    text_eq (to_lower req.target) (codes "gateway")
    && (text_eq req.zones (codes "all")
        || is_wanted g.local_zone (split_string_to_int32_slice req.zones))
    && not (leb_ℤ req.opt_time g.opt_time)

unfoldable pub fetch_open_close_door_info : Tick → Gm → Gm
fetch_open_close_door_info t g = elim t.notify [
  | absent ↦ g
  | broken ↦ g
  | command req ↦
      if is_addressed req g
      then (if text_eq (to_lower req.opt) close_door
          then update_close_door_info t req g
          else if text_eq (to_lower req.opt) open_door
          then update_open_door_info req g
          else g)
      else g
]

unfoldable pub fetch_info_from_redis : Tick → Gm → Gm
fetch_info_from_redis t g =
    fetch_userid_white_list t (fetch_ip_white_list t (fetch_open_close_door_info t g))
