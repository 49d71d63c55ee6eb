-- ===== src/Login/Handler.antt =====
-- server/login/{handler,ctrl,gm}.go: the data of a login request, the daily limit of registrations,
-- the wait for another gateway to let a player go, and the white list.
pub mod Assign
pub mod Login
pub mod NoGateway
pub mod Never
pub mod Daily
mod Tests
use greatestworks.Base.{
  Bool, List, Option, String, String_discrete, [], false, if◌then◌else◌, ite, none, not, some, suc,
  true, zero, ℕ, ◌&&◌, ◌∷◌,
}
use greatestworks.Base.Int.{leb_ℤ, ltb_ℤ, pos, wrap_int, ℤ, ℤ_discrete, ◌+ℤ◌, ◌-ℤ◌}
use greatestworks.Base.Reply.{Reply, failed, nil_reply, value}
use greatestworks.Base.SyncMap.{store, SyncMap, load}
use greatestworks.Login.Zone.{WorldEndPointInfo, ZoneManager}

pub record AccountData : Type 0 where
  pub zone_id : ℤ
  pub account : String
  pub password : String
  pub sign : String
  pub sid : String
  pub token : String

-- A request without a body, with one that does not decode, or with an account.
pub data Request : Type 0 where
  no_body undecodable : Request
  account_of : AccountData → Request

pub data Result : Type 0 where
  succ decode_err white_list_err verify_token_err unknown_err login_busy zone_error : Result
  daily_incr_over : Result

-- The part of `loginpb.LoginData` that depends on the request.
pub record LoginData : Type 0 where
  pub result : Result
  pub server_time : ℤ
  pub is_ip_in_white_list : Bool
  pub busy_level : ℤ
  pub busy_wait_time : ℤ
  pub is_pre_reged : Bool
  pub zone_id : ℤ
  pub ip : String
  pub port : ℤ
  pub zone_list : List ℤ
  pub recommend_world : List WorldEndPointInfo
  pub world_list : List WorldEndPointInfo

-- The calls of Redis and of the message queue, on the store that the waiting queue is kept in.
pub record AccountRedis (Store : Type 0) : Type 0 where
  -- HGet(DailyLimitKey, …).Int64() of the limit and of today's count, and HIncrBy of the count
  pub daily_limit : Store → Reply ℤ
  pub daily_count : Store → Reply ℤ
  pub add_daily : ℤ → Store → Store
  -- SIsMember("WhiteList", account)
  pub in_white_list : String → Store → Bool
  -- HGet(account, "ZoneId").Int() and HGet(account, "Gateway").Val()
  pub account_zone : ℕ → Store → Option ℤ
  pub account_gateway : ℕ → Store → String
  -- time.Now().Unix(): time passes with the store
  pub clock : Store → ℤ
  -- HGet(playerCache, "tick").Int64(), 0 for an error
  pub tick : ℕ → Store → ℤ
  -- HMSet of the gateway and the zone, and whether it failed
  pub set_account : ℕ → String → ℤ → Store → Store × Bool
  -- Set(tokenKey), HSet(accountKey, "AccountRobot")
  pub set_token : ℕ → String → Store → Store
  pub set_robot : String → Store → Store
  -- the message that kicks a player out, and the store two seconds later
  pub kick_out : ℕ → Store → Store
  pub sleep : Store → Store

pub record HandlerConfig : Type 0 where
  pub white_list_check : Bool
  pub use_public_network : Bool

module _ {Store : Type 0} (a : AccountRedis Store) where
  abbrev value_or_zero : Reply ℤ → ℤ
  value_or_zero (value v) = v
  value_or_zero nil_reply = pos 0
  value_or_zero failed = pos 0

  unfoldable pub check_daily_reg_cnt_limit : Store → Bool
  check_daily_reg_cnt_limit s = elim (a.daily_limit s) [
    | failed ↦ false
    | nil_reply ↦ true
    | value limit_cnt ↦ if not (ltb_ℤ (pos 0) limit_cnt) then true else elim (a.daily_count s) [
      | failed ↦ false
      | nil_reply ↦ not (ltb_ℤ limit_cnt (pos 0))
      | value reg_cnt ↦ not (ltb_ℤ limit_cnt reg_cnt)
    ]
  ]

  unfoldable pub increase_daily_reg_cnt : ℤ → Store → Store
  increase_daily_reg_cnt cnt s =
      if ltb_ℤ (pos 0) (value_or_zero (a.daily_limit s)) then a.add_daily cnt s else s

  unfoldable pub check_live : ℕ → Store → Bool
  check_live userid s = ltb_ℤ (a.clock s) (wrap_int (a.tick userid s +ℤ pos 240))

  abbrev pub previous_zone : ℕ → Store → ℤ
  previous_zone userid s = elim (a.account_zone userid s) [ none ↦ pos 0 | some z ↦ z ]

  -- The loop that waits for the other gateway, `tries` times at most.
  unfoldable pub wait_for_kick : ℕ → ℤ → ℕ → ℤ → Store → Store × ℤ
  wait_for_kick zero zone userid prev s = (s, prev)
  wait_for_kick (suc tries) zone userid prev s =
      let s' = a.sleep s in
      let rest = wait_for_kick tries zone userid (previous_zone userid s') s' in
      if ltb_ℤ (pos 0) prev && ite (ℤ_discrete prev zone) false true && check_live userid s
      then rest
      else (s, prev)

  unfoldable pub settle_zone : ℤ → ℕ → Store → Store × ℤ
  settle_zone zone userid s =
      let prev = previous_zone userid s in
      if ltb_ℤ (pos 0) prev
        && ltb_ℤ (pos 0) zone
        && ite (ℤ_discrete prev zone) false true
        && check_live userid s
      then wait_for_kick 5 zone userid prev (a.kick_out userid s)
      else (s, prev)

-- What the handler takes from third-party code and from the standard library: the signature, the
-- service id and the text of an address, whether a text is as long as an address, and whether an
-- account begins with `robot`.
pub record Texts : Type 0 where
  pub check_sign : String → String → Bool
  pub is_address : String → Bool
  pub tcp_addr : String → ℤ → String
  pub service_id : String → String
  pub is_robot : String → Bool

-- The zone manager with the global weight ratio, and Redis.
pub record Server (Store : Type 0) : Type 0 where
  pub zones : ZoneManager
  pub ratio : ℤ
  pub store : Store

-- gm.go of the login server: its white list of addresses.
pub record LoginGm : Type 0 where
  pub fetch_interval_sec : ℤ
  pub last_fetch_time : ℤ
  pub ip_white_list : SyncMap String Bool

unfoldable pub init : ℤ → LoginGm → LoginGm
init interval_sec g = record g { fetch_interval_sec = interval_sec; ip_white_list = [] }

unfoldable pub fetch_ip_white_list :
    SyncMap String String → SyncMap String Bool → SyncMap String Bool
fetch_ip_white_list [] m = m
fetch_ip_white_list ((k, v) ∷ l) m =
    fetch_ip_white_list l (store String_discrete k (ite (String_discrete v "1") true false) m)

unfoldable pub on_timer : ℤ → SyncMap String String → LoginGm → LoginGm
on_timer now ips g =
    if leb_ℤ g.fetch_interval_sec (wrap_int (now -ℤ g.last_fetch_time))
    then record g { last_fetch_time = now; ip_white_list = fetch_ip_white_list ips g.ip_white_list }
    else g

unfoldable pub is_ip_in_white_list : String → LoginGm → Bool
is_ip_in_white_list ip g = elim (load String_discrete ip g.ip_white_list) [
  | none ↦ false
  | some b ↦ b
]
