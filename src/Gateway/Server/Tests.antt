-- ===== src/Gateway/Server/Tests.antt =====
-- Tests of starting a gateway, and its theorems at concrete addresses and users.
use Prim.Native.Nat.{max}
use greatestworks.Base.{
  List, String, String_discrete, [], arith, differ, if◌then◌else◌, panics, refl, returns, ℕ, ◌*◌,
  ◌+◌, ◌/◌, ◌<◌, ◌==◌, ◌^◌, ◌∷◌, ◌≡◌, ◌≤◌,
}
use greatestworks.Base.Bits.{or_uint64}
use greatestworks.Base.Int.{pos, wrap, wrap_int, wrap_int32, ℤ, ◌*ℤ◌}
use greatestworks.Base.Text.{Text, codes, parse_uint, split, split_string_to_uint32_slice}
use greatestworks.Gateway.Server.{
  ServerRedis, buff_size, clear_conn_records, clear_record, clear_records, default_msg_size,
  digit_of, ip_address_string_to_uint64, register_timer, service_update_time, service_update_timer,
}
use greatestworks.Gateway.Server.Address.{IsAddress, ip_address_string_to_uint64-parts}
use greatestworks.Gateway.Server.Records.{IsServerRedis, clear_conn_records_lem, is_listed, left_of}
use greatestworks.Gateway.Server.Timers.{
  IsRandInt, no_updates, register_timer_lem, run_timer, run_timer-shown, shown,
}

abbrev local_address : Text
local_address = codes "127.0.0.1:8080"

address_runs :
    ip_address_string_to_uint64 local_address
    ≡ returns ((((127 * 256 + 0) * 256 + 0) * 256 + 1) * 2 ^ 32 + 8080)
unfolding ip_address_string_to_uint64 split_string_to_uint32_slice split digit_of or_uint64
address_runs = refl

no_port : ip_address_string_to_uint64 (codes "127.0.0.1") ≡ panics
unfolding ip_address_string_to_uint64 split_string_to_uint32_slice split
no_port = refl

-- Without an address to listen on, a gateway does not start.
no_host : ip_address_string_to_uint64 (codes ":8080") ≡ panics
unfolding ip_address_string_to_uint64 split_string_to_uint32_slice split
no_host = refl

sizes : buff_size default_msg_size (codes "16*1024") ≡ pos 16384
unfolding buff_size split_string_to_uint32_slice split wrap_int wrap ◌*ℤ◌
sizes = refl

abbrev local_parts : List ℕ
local_parts = 127 ∷ 0 ∷ 0 ∷ 1 ∷ 8080 ∷ []

local-IsAddress : IsAddress local_address local_parts
unfolding split_string_to_uint32_slice split
local-IsAddress = (
  codes "127.0.0.1",
  codes "8080",
  [],
  [],
  [],
  127,
  0,
  0,
  1,
  8080,
  refl,
  refl,
  refl,
  refl,
  omega arith,
  omega arith,
  omega arith,
  omega arith,
)

ip_address_string_to_uint64-parts_example :
    (n : ℕ) × (ip_address_string_to_uint64 local_address ≡ returns n)
    × (ip_address_string_to_uint64 local_address ≡ returns n → local_parts ≡ local_parts)
ip_address_string_to_uint64-parts_example =
    ip_address_string_to_uint64-parts local_address local_address local_parts local_parts
      local-IsAddress local-IsAddress

-- The members of the set, and the gateway of each account.
abbrev Records : Type 0
Records = List Text × (ℕ → String)

abbrev records : ServerRedis
records = record {
  Store = Records;
  members = λ a s. s.0;
  account_gateway = λ u s. s.1 u;
  forget_gateway = λ u s. (s.0, λ v. if u == v then "" else s.1 v);
  del_members = λ a s. ([], s.1);
}

records-IsServerRedis : IsServerRedis records
records-IsServerRedis = record {
  account_gateway-forget = λ u v s. refl;
  account_gateway-del = λ a v s. refl;
  members-del = λ a s. refl;
}

abbrev before : Records
before = (codes "7" ∷ codes "x" ∷ codes "8" ∷ [], λ u. if u == 7 then "a:1" else "b:1")

seven_forgotten : (clear_conn_records records "a:1" before).1 7 ≡ ""
unfolding clear_conn_records clear_records clear_record parse_uint String_discrete
seven_forgotten = refl

eight_kept : (clear_conn_records records "a:1" before).1 8 ≡ "b:1"
unfolding clear_conn_records clear_records clear_record parse_uint String_discrete
eight_kept = refl

clear_conn_records_lem_example :
    ((clear_conn_records records "a:1" before).1 7 ≡ left_of "a:1" (is_listed 7 before.0) "a:1")
    × ((clear_conn_records records "a:1" before).0 ≡ [])
clear_conn_records_lem_example =
    clear_conn_records_lem records records-IsServerRedis "a:1" 7 before (differ "a:1" "" refl)

abbrev first_number : ℤ → ℤ
first_number n = pos 0

first_number-IsRandInt : IsRandInt first_number
first_number-IsRandInt n h = (0, refl, h)

every_six_seconds :
    (seconds : ℕ) × (least : ℕ) × (service_update_time (pos 6) ≡ pos least)
    × (register_timer first_number (pos 6) ≡ pos seconds)
    × (0 < least)
    × (least ≤ seconds)
    × (seconds ≤ least + max 2 (least / 2))
every_six_seconds = register_timer_lem first_number first_number-IsRandInt (pos 6) refl

run_timer-shown_example :
    shown (service_update_timer 3 (run_timer (2 ∷ 2 ∷ []) no_updates)) ≡ wrap_int32 (pos 3)
run_timer-shown_example = run_timer-shown (2 ∷ 2 ∷ []) 3
