-- ===== src/Login/Zone/Status.antt =====
-- The load status of a world: worldMetrics and processOnlineStat of server/login/zone.go.
use greatestworks.Base.{Bool, Option, if◌then◌else◌, none, some, ℕ, ◌&&◌, ◌==◌}
use greatestworks.Base.Float32.{Float32}
use greatestworks.Base.Int.{ltb_ℤ, pos, ℤ}
use greatestworks.Login.Config.{Me, Status, close_status, empty_status, full_status, ok_status}
use greatestworks.Login.World.{WorldEndpoint, age, fake_period}

module _ (fl : Float32) (me : Me) (now : ℤ) where
  open fl use {of_int, div, lt, tenths}

  -- rate < EmptyRatio, rate < BusyRatio
  abbrev pub rated : ℤ → ℕ → Status
  rated player_num max =
      let rate = div (of_int player_num) (of_int (pos max)) in
      if lt rate (tenths 2)
      then empty_status
      else if lt rate (tenths 7)
      then ok_status
      else full_status

  -- Whether the world's players are still made up.
  abbrev pub is_faking : WorldEndpoint → Bool
  is_faking e = ltb_ℤ (pos e.p_idx) e.fake_server_cnt && ltb_ℤ e.player_num e.init_fake_player_num

  abbrev pub shown_players : WorldEndpoint → ℤ
  shown_players e =
      if is_faking e && ltb_ℤ (age fl me now e) (fake_period fl me now)
      then e.init_fake_player_num
      else e.player_num

  abbrev pub expired : WorldEndpoint → WorldEndpoint
  expired e =
      if is_faking e && ltb_ℤ (fake_period fl me now) (age fl me now e)
      then record e { init_fake_player_num = pos 0 }
      else e

  -- The world as the call leaves it, and its status.
  unfoldable pub measured : WorldEndpoint → WorldEndpoint × Status
  measured e = if e.max == 0 then (e, ok_status) else (expired e, rated (shown_players e) e.max)

  -- `none` is a nil pointer.
  unfoldable pub process_online_stat : Option WorldEndpoint → Option WorldEndpoint × Status
  unfolding measured
  process_online_stat none = (none, close_status)
  process_online_stat (some e) = let (e', stat) = measured e in (some e', stat)

  -- The second copy of the same code, over named constants.
  unfoldable pub world_metrics : Option WorldEndpoint → Option WorldEndpoint × Status
  world_metrics none = (none, close_status)
  world_metrics (some e) =
      if e.max == 0 then (some e, ok_status) else (some (expired e), rated (shown_players e) e.max)
