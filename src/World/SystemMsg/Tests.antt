-- ===== src/World/SystemMsg/Tests.antt =====
-- Tests of the messages of the system, and their theorem at a concrete message.
use greatestworks.Base.{[], false, none, refl, some, true, ℕ_discrete, ◌∷◌, ◌≡◌}
use greatestworks.Base.Int.{ltb_ℤ, pos, wrap, wrap_int32, ℤ_discrete}
use greatestworks.Base.Text.{
  codes, int32s, parse_int, split, split_string_to_int32_slice, text_eq, to_lower,
}
use greatestworks.World.SystemMsg.{
  Oasis, SysMessage, forward_first, forward_for, forward_sys_msg, handle_message, new_sys_msg,
  send_sys_msg, system_message_type,
}
use greatestworks.World.SystemMsg.Filter.{IsFor, handle_message_lem, sent-Ignored}

abbrev world : Oasis
world = record { start_tm = pos 100; pid = pos 7; capacity = 2; system_msgs = [] }

abbrev msg : SysMessage
msg = record {
  msg_type = 1;
  send_time = pos 200;
  modules = codes "5,7,7";
  channels = [];
  content = "hello";
}

once : handle_message msg world ≡ record world { system_msgs = msg ∷ [] }
unfolding handle_message forward_for forward_first forward_sys_msg text_eq to_lower
    split_string_to_int32_slice int32s split parse_int ℤ_discrete ℕ_discrete wrap_int32 wrap
once = refl

dropped : forward_sys_msg msg (record world { capacity = 0 }) ≡ record world { capacity = 0 }
unfolding forward_sys_msg
dropped = refl

wrong_type : send_sys_msg (λ m. none) 5 "hello" ≡ some (system_message_type 5)
unfolding send_sys_msg
wrong_type = refl

ignored : handle_message (new_sys_msg 1 "hello") world ≡ world
ignored = sent-Ignored 1 "hello" world refl

handle_message_lem_example :
    (ltb_ℤ msg.send_time world.start_tm ≡ true → handle_message msg world ≡ world)
    × (ltb_ℤ msg.send_time world.start_tm ≡ false
        → IsFor msg world
        → handle_message msg world ≡ forward_sys_msg msg world)
    × (¬ IsFor msg world → handle_message msg world ≡ world)
handle_message_lem_example = handle_message_lem msg world
