-- ===== src/Login/Handler/Login.antt =====
-- server/login/handler.go: the handler of a login request, with its result.
use greatestworks.Base.{
  Bool, Outcome, String, String_discrete, [], false, if◌then◌else◌, is_empty_str, ite, none, not,
  panics, returns, some, true, ℕ, ◌&&◌, ◌||◌,
}
use greatestworks.Base.Float32.{Float32}
use greatestworks.Base.Int.{ltb_ℤ, pos, wrap_int32, ℤ, ℤ_discrete}
use greatestworks.Login.Config.{Me}
use greatestworks.Login.Handler.{
  AccountData, AccountRedis, HandlerConfig, LoginData, LoginGm, Request, Result, Server, Texts,
  account_of, check_daily_reg_cnt_limit, daily_incr_over, decode_err, increase_daily_reg_cnt,
  is_ip_in_white_list, login_busy, no_body, succ, undecodable, unknown_err, verify_token_err,
  white_list_err, zone_error,
}
use greatestworks.Login.Handler.Assign.{recommend_gateway_for_player}
use greatestworks.Login.Queue.{Float64, QueueConfig, QueueRedis, check_wait_level}
use greatestworks.Login.Zone.{
  ZoneManager, get_zone_online_list, get_zones_info, recommend_zone, recommend_zone_worlds,
  zone_exist_for_online,
}

-- The clock, the float types, the settings, the third-party texts and Redis, the discoveries of the
-- request's calls of GetZoneManager, and the random numbers.
module _ (fl : Float32) (f64 : Float64) (me : Me) (queue : QueueConfig f64) (r : QueueRedis)
    (a : AccountRedis r.Store) (texts : Texts) (h : HandlerConfig)
    (discover : ℕ → ZoneManager → ZoneManager) (rand : ℕ → ℕ) where
  abbrev pub answered : Result → LoginData → LoginData
  answered result info = record info { result = result }

  abbrev pub is_inner : AccountData → Bool
  is_inner acc =
      not h.use_public_network
      && texts.is_robot acc.account
      && ite (String_discrete acc.password "robot") true false

  -- The zone that the request names, or a recommended one.
  unfoldable pub zone_of : AccountData → Server r.Store → Server r.Store × ℤ
  zone_of acc s =
      ite (ℤ_discrete acc.zone_id (pos 0))
        (let (zones', zone) =
            recommend_zone fl me (a.clock s.store) (discover 2 s.zones) (rand 0) in
          (record s { zones = zones' }, wrap_int32 zone))
        (s, wrap_int32 acc.zone_id)

  -- What follows once a gateway is found; the user's number is 0.
  unfoldable pub welcomed :
      AccountData
      → ℤ
      → ℤ × String × ℤ
      → Server r.Store
      → LoginData
      → Outcome (Server r.Store × LoginData)
  welcomed acc zone (zid, ip, port) s info =
      let z1 = discover 7 s.zones in
      elim (get_zones_info z1) [
        | panics ↦ panics
        | returns zone_list ↦
            let (z2, found, worlds) =
              recommend_zone_worlds fl me (a.clock s.store) (discover 8 z1) zid in
            let (z3, online) =
              get_zone_online_list fl me (a.clock s.store) (discover 9 z2) (wrap_int32 zid) in
            let store' = a.set_token 0 "" s.store in
            returns (
              record s {
                zones = z3;
                store = if is_inner acc then a.set_robot acc.account store' else store';
              },
              record info {
                result = succ;
                zone_id = wrap_int32 zid;
                ip = ip;
                port = wrap_int32 port;
                zone_list = zone_list;
                recommend_world = worlds;
                world_list = online;
              },
            )
      ]

  -- What follows once the request is admitted by the queue.
  unfoldable pub admitted :
      AccountData → Server r.Store → LoginData → Outcome (Server r.Store × LoginData)
  admitted acc s info =
      if not (check_daily_reg_cnt_limit a s.store)
      then returns (s, answered daily_incr_over info)
      else let s1 = record s { store = increase_daily_reg_cnt a (pos 1) s.store } in
        let info' = record info { is_pre_reged = true } in
        let s2 =
          if ltb_ℤ (pos 0) acc.zone_id then record s1 { zones = discover 1 s1.zones } else s1 in
        if ltb_ℤ (pos 0) acc.zone_id && not (zone_exist_for_online s2.zones acc.zone_id)
        then returns (s2, answered zone_error info')
        else let (s3, zone) = zone_of acc s2 in
          let info'' = record info' { zone_id = zone } in
          elim (recommend_gateway_for_player a texts discover (rand 1) zone 0 (is_inner acc) s3) [
            | panics ↦ panics
            | returns (s4, none) ↦ returns (s4, answered zone_error info'')
            | returns (s4, some found) ↦ welcomed acc zone found s4 info''
          ]

  -- What follows once the account decodes. The check of a third party's token is a stub.
  unfoldable pub checked :
      AccountData → Server r.Store → LoginData → Outcome (Server r.Store × LoginData)
  checked acc s info =
      if is_empty_str acc.account || is_empty_str acc.password || is_empty_str acc.sign
      then returns (s, answered unknown_err info)
      else if not (texts.check_sign acc.account acc.sign)
      then returns (s, answered verify_token_err info)
      else if h.white_list_check && not (a.in_white_list acc.account s.store)
      then returns (s, answered white_list_err info)
      else elim (check_wait_level f64 r queue (a.clock s.store) acc.account s.store) [
        | panics ↦ panics
        | returns (store', level, time) ↦
            let s' = record s { store = store' } in
            ite (ℤ_discrete level (pos 0)) (admitted acc s' info) (
              returns (
                s',
                record info {
                  result = login_busy;
                  busy_level = wrap_int32 level;
                  busy_wait_time = wrap_int32 time;
                },
              ))
      ]

  unfoldable pub login :
      Request → String → LoginGm → Server r.Store → Outcome (Server r.Store × LoginData)
  login request client_ip g s =
      let info : LoginData = record {
        result = succ;
        server_time = a.clock s.store;
        is_ip_in_white_list = is_ip_in_white_list client_ip g;
        busy_level = pos 0;
        busy_wait_time = pos 0;
        is_pre_reged = false;
        zone_id = pos 0;
        ip = "";
        port = pos 0;
        zone_list = [];
        recommend_world = [];
        world_list = [];
      } in
      elim request [
        | no_body ↦ returns (s, answered unknown_err info)
        | undecodable ↦ returns (s, answered decode_err info)
        | account_of acc ↦ checked acc s info
      ]
