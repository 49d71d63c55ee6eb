-- ===== src/Login/World.antt =====
-- server/login/world.go: the worlds (game servers) of one zone.
-- The map holds pointers: a write through one is a store of the changed value. The current time is
-- an argument.
pub mod Online
mod Tests
use greatestworks.Base.{
  Bool, List, String, String_discrete, [], false, if◌then◌else◌, is_empty_str, ite, length, none,
  not, some, true, ℕ, ◌&&◌, ◌+◌, ◌==◌, ◌∷◌,
}
use greatestworks.Base.Float32.{Float32}
use greatestworks.Base.Int.{ltb_ℤ, pos, wrap_int, wrap_int32, ℤ, ℤ_discrete, ◌*ℤ◌, ◌-ℤ◌}
use greatestworks.Base.SyncMap.{SyncMap, delete, load, store}
use greatestworks.Login.Config.{Me, ServiceEntry, hours_seconds}

pub record WorldEndpoint : Type 0 where
  pub zone_id : ℤ
  pub id : String
  pub ip : String
  pub port : ℤ
  pub name : String
  pub player_num : ℤ  -- int32
  pub p_idx : ℕ  -- uint32
  pub max : ℕ  -- uint32
  pub begin_tm : ℤ  -- int64
  pub init_fake_player_num : ℤ  -- int32
  pub fake_server_cnt : ℤ

pub record World : Type 0 where
  pub end_points : SyncMap String WorldEndpoint
  pub zone_id : ℤ

unfoldable pub new_world : ℤ → World
new_world zone = record { end_points = []; zone_id = zone }

unfoldable pub remove_endpoint : World → String → World
remove_endpoint w id =
    if is_empty_str id then w else record w { end_points = delete String_discrete id w.end_points }

-- The inner loop of `clearInvalid`.
abbrev pub is_registered : WorldEndpoint → List ServiceEntry → Bool
is_registered e [] = false
is_registered e (s ∷ entries) =
    if not (is_empty_str e.id) && ite (String_discrete e.id s.id) true false
    then true
    else is_registered e entries

-- The `Range` of `clearInvalid`: the worlds of the zone, and the ids of the invalid ones.
abbrev pub invalid : ℤ → List ServiceEntry → SyncMap String WorldEndpoint → ℕ × List String
invalid zone entries [] = (0, [])
invalid zone entries ((key, e) ∷ m) =
    let (total, del) = invalid zone entries m in
    ite (ℤ_discrete e.zone_id zone) (total + 1, if is_registered e entries then del else e.id ∷ del)
      (total, del)

abbrev pub remove_all : World → List String → World
remove_all w [] = w
remove_all w (id ∷ del) = remove_all (remove_endpoint w id) del

unfoldable pub clear_invalid : World → List ServiceEntry → World × ℤ × Bool
unfolding remove_endpoint
clear_invalid w entries =
    let (total, del) = invalid w.zone_id entries w.end_points in
    (remove_all w del, w.zone_id, total == length del)

module _ (fl : Float32) (me : Me) (now : ℤ) where
  open fl use {of_int, mul, to_int32, tenths}

  -- int32(float32(Max)*0.7) - PlayersDeltaCnt
  unfoldable pub fake_players : ℕ → ℤ
  fake_players max =
      wrap_int32 (to_int32 (mul (of_int (pos max)) (tenths 7)) -ℤ me.players_delta_cnt)

  -- int32(now-BeginTM) < PlayerNumHour*3600, and the same for >
  unfoldable pub age : WorldEndpoint → ℤ
  age e = wrap_int32 (wrap_int (now -ℤ e.begin_tm))

  unfoldable pub fake_period : ℤ
  fake_period = wrap_int32 (me.player_num_hour *ℤ hours_seconds)

  -- The new world, and the argument as the call leaves it.
  unfoldable pub update_online : World → WorldEndpoint → World × WorldEndpoint
  update_online w en_point =
      ite (ℤ_discrete en_point.zone_id w.zone_id)
        (elim (load String_discrete en_point.id w.end_points) [
          | some endpoint ↦
              (let endpoint' = record endpoint {
                player_num = en_point.player_num;
                max = en_point.max;
              } in
                (
                  record w {
                    end_points = store String_discrete en_point.id endpoint' w.end_points;
                  },
                  if ltb_ℤ (pos en_point.p_idx) en_point.fake_server_cnt
                        && not (ltb_ℤ (pos 0) en_point.init_fake_player_num)
                        && ltb_ℤ (age endpoint') fake_period
                      then record en_point { init_fake_player_num = fake_players en_point.max }
                      else en_point,
                ))
          | none ↦
              (let en_point' =
                  if ltb_ℤ (pos en_point.p_idx) en_point.fake_server_cnt
                  then record en_point { init_fake_player_num = fake_players en_point.max }
                  else en_point in
                (
                  record w {
                    end_points = store String_discrete en_point.id en_point' w.end_points;
                  },
                  en_point',
                ))
        ])
        (w, en_point)
