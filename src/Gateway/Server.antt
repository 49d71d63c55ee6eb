-- ===== src/Gateway/Server.antt =====
-- Starting a gateway: server/gateway/server/server.go and service_impl.go, with
-- IpAddressStringToUint64 of aop/fn/system.go. Redis is a parameter.
pub mod Records
pub mod Address
pub mod Timers
mod Tests
use greatestworks.Base.{
  List, Outcome, String, String_discrete, [], if◌then◌else◌, ite, none, panics, returns, some, ℕ,
  ◌%◌, ◌*◌, ◌==◌, ◌^◌, ◌∷◌,
}
use greatestworks.Base.Bits.{or_uint64}
use greatestworks.Base.Int.{leb_ℤ, pos, quot, wrap_int, wrap_int32, ℤ, ◌*ℤ◌, ◌+ℤ◌}
use greatestworks.Base.Text.{Text, parse_uint, split, split_string_to_uint32_slice}
use greatestworks.Login.Gateway.Clear.{ids}

-- The calls of the Redis client, by what their keys are made of.
pub record ServerRedis : Type 1 where
  pub Store : Type 0
  -- SMembers(MakeGatewayKey(address)).Val()
  pub members : String → Store → List Text
  -- HGet(MakeAccountKey(userid), "Gateway").Val(), "" where there is none
  pub account_gateway : ℕ → Store → String
  -- HDel(MakeAccountKey(userid), "Gateway", "ZoneId")
  pub forget_gateway : ℕ → Store → Store
  -- Del(MakeGatewayKey(address))
  pub del_members : String → Store → Store

module _ (r : ServerRedis) where
  unfoldable pub clear_record : String → Text → r.Store → r.Store
  clear_record tcp_addr id_str s = elim (parse_uint 64 id_str) [
    | none ↦ s
    | some uid ↦ ite (String_discrete (r.account_gateway uid s) tcp_addr) (r.forget_gateway uid s) s
  ]

  unfoldable pub clear_records : String → List Text → r.Store → r.Store
  clear_records tcp_addr [] s = s
  clear_records tcp_addr (id_str ∷ ids) s =
      clear_records tcp_addr ids (clear_record tcp_addr id_str s)

  unfoldable pub clear_conn_records : String → r.Store → r.Store
  clear_conn_records tcp_addr s =
      r.del_members tcp_addr (clear_records tcp_addr (r.members tcp_addr s) s)

-- The configured interval, corrected, and the seconds between two calls of serviceUpdateTimer.
-- `rand n` is what rand.Intn(n) answers.
unfoldable pub service_update_time : ℤ → ℤ
service_update_time configured = if leb_ℤ configured (pos 0) then pos 2 else configured

unfoldable pub register_timer : (ℤ → ℤ) → ℤ → ℤ
register_timer rand configured =
    let su_duration = service_update_time configured in
    let su_rand_sec =
      if leb_ℤ (pos 5) su_duration then wrap_int (quot su_duration (pos 2) +ℤ pos 1) else pos 3 in
    wrap_int (rand su_rand_sec +ℤ su_duration)

-- What the timer of the service keeps, and what it told Consul, the last update first.
pub record Service : Type 0 where
  pub last_update_count : ℕ
  pub updates : List ℤ

unfoldable pub service_update_timer : ℕ → Service → Service
service_update_timer client_num s = if client_num == s.last_update_count then s else record s {
  last_update_count = client_num;
  updates = wrap_int32 (pos client_num) ∷ s.updates;
}

-- The size of a buffer: the product of the numbers between asterisks.
product : ℤ → List ℕ → ℤ
product size [] = size
product size (n ∷ ns) = product (wrap_int (size *ℤ pos n)) ns

unfoldable pub buff_size : ℤ → Text → ℤ
unfolding product
buff_size default text = elim (split_string_to_uint32_slice text 0x2a) [
  | [] ↦ default
  | n ∷ ns ↦ product (pos 1) (n ∷ ns)
]

abbrev pub default_msg_size : ℤ
default_msg_size = pos (16 * 1024)

abbrev pub default_conn_size : ℤ
default_conn_size = pos (128 * 1024)

-- `digit` of four parts and a port; the parts are shifted as uint32, and the whole as uint64.
unfoldable pub digit_of : ℕ → ℕ → ℕ → ℕ → ℕ → ℕ
digit_of a b c d port =
    let digit =
      or_uint64
        (or_uint64 (or_uint64 (a * 2 ^ 24 % 2 ^ 32) (b * 2 ^ 16 % 2 ^ 32)) (c * 2 ^ 8 % 2 ^ 32))
        d in
    or_uint64 (digit * 2 ^ 32 % 2 ^ 64) port

-- The parts are read out of range where there are too few.
unfoldable pub ip_address_string_to_uint64 : Text → Outcome ℕ
ip_address_string_to_uint64 ipaddr = elim (split 0x3a ipaddr) [
  | host ∷ port_text ∷ more ↦ elim (split_string_to_uint32_slice host 0x2e) [
    | a ∷ b ∷ c ∷ d ∷ others ↦ elim (split_string_to_uint32_slice port_text 0x2e) [
      | port ∷ ports ↦ returns (digit_of a b c d port)
      | [] ↦ panics
    ]
    | _ ↦ panics
  ]
  | _ ↦ panics
]
