-- ===== src/World/SystemMsg.antt =====
-- Messages of the system: server/world/chat/system_msg.go, with ForwardSysMsg of
-- server/world/server/world.go. A message is decoded before; NSQ's answer to a publication is an
-- argument, and so is the text that Sprintf makes.
pub mod Filter
mod Tests
use greatestworks.Base.{
  List, Option, String, [], false, if◌then◌else◌, ite, leb, length, ltb, none, some, true, ℕ, ◌&&◌,
  ◌++◌, ◌||◌, ◌∷◌,
}
use greatestworks.Base.Int.{leb_ℤ, ltb_ℤ, pos, wrap_int32, ℤ, ℤ_discrete}
use greatestworks.Base.Text.{Text, codes, split_string_to_int32_slice, text_eq, to_lower}

pub record SysMessage : Type 0 where
  pub msg_type : ℕ
  pub send_time : ℤ
  pub modules : Text
  pub channels : Text
  pub content : String

abbrev pub none_msg : ℕ
none_msg = 0

abbrev pub sys_msg_end : ℕ
sys_msg_end = 5

-- What the world keeps of it: when it started, its id, and the channel of messages with its size.
pub record Oasis : Type 0 where
  pub start_tm : ℤ
  pub pid : ℤ
  pub capacity : ℕ
  pub system_msgs : List SysMessage

-- A message is dropped where the channel is full.
unfoldable pub forward_sys_msg : SysMessage → Oasis → Oasis
forward_sys_msg msg w =
    if ltb (length w.system_msgs) w.capacity
    then record w { system_msgs = w.system_msgs ++ msg ∷ [] }
    else w

-- The loop over the ids of the message.
unfoldable pub forward_first : SysMessage → List ℤ → Oasis → Oasis
forward_first msg [] w = w
forward_first msg (pid ∷ pids) w =
    let rest = forward_first msg pids w in
    if leb_ℤ (pos 0) pid && ite (ℤ_discrete pid (wrap_int32 w.pid)) true false
    then forward_sys_msg msg w
    else rest

-- The tests of `sysMsg.Modules`.
unfoldable pub forward_for : Text → SysMessage → Oasis → Oasis
forward_for [] msg w = forward_sys_msg msg w
forward_for (c ∷ cs) msg w =
    if text_eq (to_lower (c ∷ cs)) (codes "all")
    then forward_sys_msg msg w
    else forward_first msg (split_string_to_int32_slice (c ∷ cs)) w

unfoldable pub handle_message : SysMessage → Oasis → Oasis
handle_message msg w = if ltb_ℤ msg.send_time w.start_tm then w else forward_for msg.modules msg w

-- An error of the type, or what the publication answers.
pub data SendError : Type 0 where
  system_message_type : ℕ → SendError
  publish_error : String → SendError

-- The message that is sent, which has no time of sending.
abbrev pub new_sys_msg : ℕ → String → SysMessage
new_sys_msg msg_type content = record {
  msg_type = msg_type;
  send_time = pos 0;
  modules = [];
  channels = [];
  content = content;
}

unfoldable pub send_sys_msg : (SysMessage → Option String) → ℕ → String → Option SendError
send_sys_msg publish msg_type content =
    if leb msg_type none_msg || leb sys_msg_end msg_type
    then some (system_message_type msg_type)
    else elim (publish (new_sys_msg msg_type content)) [
      | none ↦ none
      | some e ↦ some (publish_error e)
    ]
