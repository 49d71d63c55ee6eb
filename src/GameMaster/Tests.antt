-- ===== src/GameMaster/Tests.antt =====
-- Tests of the game master, and its theorems at a concrete order.
use greatestworks.Base.{[], arith, none, refl, true, ℕ, ◌<◌, ◌^◌, ◌∷◌, ◌≡◌}
use greatestworks.Base.Int.{pos, wrap, wrap_int, wrap_int32, ℤ_discrete, ◌*ℤ◌, ◌+ℤ◌}
use greatestworks.Base.Text.{codes, parse_int, split_string_to_int32_slice, text_eq, to_lower}
use greatestworks.GameMaster.{
  Command, Gm, Tick, close_door, command, fetch_open_close_door_info, init, is_addressed, is_wanted,
  update_close_door_info,
}
use greatestworks.GameMaster.Door.{Door, IsQuiet}
use greatestworks.GameMaster.Schedule.{Ends, run_ticks, run_ticks-scheduled}

abbrev order : Command
order = record {
  opt = codes "Close_Door";
  opt_time = pos 1000;
  target = codes "Gateway";
  after_min = codes "2";
  ops_min = codes "10";
  kickoff_user = codes "1";
  ops_desc = codes "soon";
  zones = codes "3,5";
}

abbrev tick : ℕ → Tick
tick now = record { now = pos now; rand = 9; notify = command order; ips = []; uids = [] }

abbrev started : Gm
started = record {
  is_open_now = true;
  local_start_tm = pos 900;
  fetch_interval = pos 30;
  local_server_id = codes "g1";
  local_server_type = codes "gateway";
  opt = [];
  after_sec = pos 0;
  opt_sec = pos 0;
  opts_desc = [];
  kickoff_user = pos 0;
  last_fetch_time = pos 0;
  opt_time = pos 0;
  last_notify_time = pos 0;
  show_tips = none;
  ip_white_list = ("127.0.0.1", true) ∷ [];
  uid_white_list = [];
  local_zone = pos 5;
  sent = [];
}

abbrev ordered : Gm
ordered = record started {
  opt = close_door;
  opt_time = pos 1000;
  after_sec = pos 130;
  opt_sec = pos 600;
  kickoff_user = pos 1;
  opts_desc = codes "soon";
}

init_runs : init (pos 900) (codes "G1") (codes "Gateway") (pos 30) true (pos 5) ≡ started
unfolding init to_lower wrap_int32 wrap
init_runs = refl

order_runs : fetch_open_close_door_info (tick 1010) started ≡ ordered
unfolding fetch_open_close_door_info is_addressed update_close_door_info is_wanted
    split_string_to_int32_slice parse_int to_lower text_eq wrap_int wrap ◌+ℤ◌ ◌*ℤ◌ ℤ_discrete
order_runs = refl

quiet : (now : ℕ) → now < 2 ^ 61 → IsQuiet 1000 (tick now) now
quiet now h = record { clock = refl; fits = h; old = omega arith }

ordered-Door : Door true close_door 1000 130 600 (pos 1) 0 ordered
ordered-Door = record {
  is_open = refl;
  order = refl;
  time = refl;
  after = refl;
  ops = refl;
  kickoff = refl;
  kicked = refl;
}

-- The door closes at the tick at 1131, and opens at the one at 1731.
run_ticks-scheduled_example :
    Ends true 1 (run_ticks (tick 1012 ∷ tick 1071 ∷ tick 1131 ∷ tick 1200 ∷ tick 1731 ∷ []) ordered)
unfolding ℤ_discrete
run_ticks-scheduled_example =
    run_ticks-scheduled 1000 130 600 (pos 1) 0
      (tick 1012 ∷ tick 1071 ∷ tick 1131 ∷ tick 1200 ∷ tick 1731 ∷ [])
      (1012 ∷ 1071 ∷ 1131 ∷ 1200 ∷ 1731 ∷ []) ordered (omega arith) (omega arith) (omega arith)
      (
        quiet 1012 (omega arith),
        (
          quiet 1071 (omega arith),
          (quiet 1131 (omega arith), (quiet 1200 (omega arith), (quiet 1731 (omega arith), tt))),
        ),
      )
      ordered-Door

abbrev late : Command
late = record order { after_min = codes "5"; ops_min = codes "x" }
