-- ===== src/GameMaster/CountDown.antt =====
-- The count-downs of the game master, and its timer: server/gateway/gm/gm.go.
use greatestworks.Base.{
  Option, [], false, if◌then◌else◌, ite, length, ltb, none, not, some, true, ℕ, ◌∷◌,
}
use greatestworks.Base.Int.{leb_ℤ, ltb_ℤ, pos, quot, wrap_int, ℤ, ℤ_discrete, ◌+ℤ◌, ◌-ℤ◌}
use greatestworks.Base.Text.{text_eq}
use greatestworks.GameMaster.{
  Gm, Tick, Tip, close_door, closing_in_minutes, closing_in_seconds, fetch_info_from_redis, kick,
  maintained_minutes, maintained_soon, open_door, system_message,
}

unfoldable pub update_notify_tip : Tip → Gm → Gm
update_notify_tip tip g = if g.is_open_now then g else record g { show_tips = some tip }

unfoldable pub notify_all_online_player : ℤ → Tip → Gm → Gm
notify_all_online_player now tip g = record g {
  last_notify_time = now;
  sent = system_message tip ∷ g.sent;
}

unfoldable pub kick_off_online_player : Gm → Gm
kick_off_online_player g = record g { sent = kick ∷ g.sent }

-- One branch of closeDoorCountDown: a tip, unless the last was sent less than `period` ago.
unfoldable pub remind : ℤ → ℤ → ℕ → Tip → Gm → Gm
remind now rest_notify_sec period tip g =
    if leb_ℤ (pos period) rest_notify_sec
    then notify_all_online_player now tip (update_notify_tip tip g)
    else g

abbrev pub ops_minutes : Gm → Option ℤ
ops_minutes g = if ltb_ℤ (pos 0) g.opt_sec then some (quot g.opt_sec (pos 60)) else none

-- The last branch of closeDoorCountDown.
unfoldable pub close_now : Gm → Gm
close_now g =
    let g' = record g { is_open_now = false } in
    let g'' = ite (ℤ_discrete g.kickoff_user (pos 0)) g' (kick_off_online_player g') in
    record g'' { opt = if ltb_ℤ (pos 0) g.opt_sec then open_door else [] }

unfoldable pub close_door_count_down : ℤ → Gm → Gm
close_door_count_down now g =
    let close_time = wrap_int (g.opt_time +ℤ g.after_sec) in
    let close_rest_sec = wrap_int (close_time -ℤ now) in
    let rest_notify_sec = wrap_int (now -ℤ g.last_notify_time) in
    let minutes = closing_in_minutes (quot close_rest_sec (pos 60)) (ops_minutes g) g.opts_desc in
    let seconds = closing_in_seconds close_rest_sec (ops_minutes g) g.opts_desc in
    if not (text_eq g.opt close_door)
    then g
    else if leb_ℤ (pos 300) close_rest_sec
    then remind now rest_notify_sec 120 minutes g
    else if leb_ℤ (pos 180) close_rest_sec
    then remind now rest_notify_sec 60 minutes g
    else if leb_ℤ (pos 60) close_rest_sec
    then remind now rest_notify_sec 30 minutes g
    else if ltb_ℤ (pos 0) close_rest_sec
    then remind now rest_notify_sec 10 seconds g
    else close_now g

unfoldable pub open_door_count_down : ℤ → Gm → Gm
open_door_count_down now g =
    let open_time = wrap_int (wrap_int (g.opt_time +ℤ g.after_sec) +ℤ g.opt_sec) in
    let open_rest_sec = wrap_int (open_time -ℤ now) in
    if not (text_eq g.opt open_door)
    then g
    else if leb_ℤ open_rest_sec (pos 0)
    then record g {
      is_open_now = true;
      opt = [];
      after_sec = pos 0;
      opt_sec = pos 0;
      kickoff_user = pos 0;
      show_tips = none;
    }
    else update_notify_tip
        (if ltb_ℤ (pos 60) open_rest_sec
          then maintained_minutes (quot open_rest_sec (pos 60)) g.opts_desc
          else maintained_soon)
        g

unfoldable pub count_down_update : ℤ → Gm → Gm
count_down_update now g =
    if text_eq g.opt close_door
    then close_door_count_down now g
    else if text_eq g.opt open_door
    then open_door_count_down now g
    else g

unfoldable pub on_timer : Tick → Gm → Gm
on_timer t g =
    let g' =
      if leb_ℤ g.fetch_interval (wrap_int (t.now -ℤ g.last_fetch_time))
      then fetch_info_from_redis t (record g { last_fetch_time = t.now })
      else g in
    if ltb 0 (length g'.opt) then count_down_update t.now g' else g'
