-- ===== src/World/Chat.antt =====
-- The queues that limit the chat of a zone and of the world: server/world/chat/zone_queue.go and
-- world_queue.go, which differ in their keys and sizes. Redis is a parameter.
pub mod Waits
mod Tests
use greatestworks.Base.{
  Bool, Option, String, false, if◌then◌else◌, ite, none, not, some, ℕ, ◌-◌, ◌^◌,
}
use greatestworks.Base.Int.{leb_ℤ, ltb_ℤ, pos, quot, wrap_int, ℤ, ℤ_discrete, ◌*ℤ◌, ◌+ℤ◌, ◌-ℤ◌}
use greatestworks.Base.Reply.{Reply, failed, nil_reply, value}

-- The calls of the Redis client on one queue and its windows, which have a key for each time slice.
pub record ChatRedis : Type 1 where
  pub Store : Type 0
  pub z_card : Store → Reply ℤ
  pub z_add : ℤ → String → Store → Store
  pub z_rank : String → Store → Reply ℤ
  pub z_rem : String → Store → Store
  pub z_rem_range_by_score : ℤ → ℤ → Store → Store
  pub get_window : ℤ → Store → Reply ℤ
  pub incr_window : ℤ → Store → Store × Reply ℤ
  -- Expire is called on another client than Incr.
  pub expire_window : ℤ → ℤ → Store → Store

pub record Sizes : Type 0 where
  pub window_size : ℤ
  pub queue_size : ℤ

abbrev pub cfg_zone : Sizes
cfg_zone = record { window_size = pos 1000; queue_size = pos 2200 }

abbrev pub cfg_world : Sizes
cfg_world = record { window_size = pos 600; queue_size = pos 1200 }

abbrev pub cfg_time_slice : ℤ
cfg_time_slice = pos 5

abbrev pub max_int64 : ℤ
max_int64 = pos (2 ^ 63 - 1)

unfoldable pub get_n_time_slice : ℤ → ℤ
get_n_time_slice now = quot now cfg_time_slice

module _ (r : ChatRedis) where
  unfoldable pub get_queue_length : r.Store → ℤ
  get_queue_length s = elim (r.z_card s) [ value v ↦ v | nil_reply ↦ pos 0 | failed ↦ max_int64 ]

  unfoldable pub get_queue_rank : String → r.Store → Option ℤ
  get_queue_rank uid s = elim (r.z_rank uid s) [
    | value v ↦ some (wrap_int (v +ℤ pos 1))
    | nil_reply ↦ none
    | failed ↦ none
  ]

  unfoldable pub queue_enqueue : ℤ → String → r.Store → r.Store × ℤ
  queue_enqueue now uid s =
      let s' = r.z_add now uid s in
      elim (r.z_rank uid s') [
        | value v ↦ (s', wrap_int (v +ℤ pos 1))
        | nil_reply ↦ (s', max_int64)
        | failed ↦ (s', max_int64)
      ]

  unfoldable pub queue_dequeue : String → r.Store → r.Store
  queue_dequeue uid s = r.z_rem uid s

  unfoldable pub get_window_size : Sizes → ℤ → r.Store → ℤ
  get_window_size cfg rank_time s =
      let left = λ (used : ℤ). wrap_int (cfg.window_size -ℤ used) in
      let no_less = λ (z : ℤ). if ltb_ℤ z (pos 0) then pos 0 else z in
      elim (r.get_window rank_time s) [
        | value used ↦ no_less (left used)
        | nil_reply ↦ no_less (left (pos 0))
        | failed ↦ pos 0
      ]

  unfoldable pub occupying_a_window_seat : Sizes → ℤ → r.Store → r.Store × Bool
  occupying_a_window_seat cfg rank_time s =
      let (s', reply) = r.incr_window rank_time s in
      elim reply [
        | nil_reply ↦ (s', false)
        | failed ↦ (s', false)
        | value v ↦ (
          r.expire_window rank_time (wrap_int (pos 2 *ℤ cfg_time_slice)) s',
          not (ltb_ℤ cfg.window_size v),
        )
      ]

  -- The end of checkSend…Chat and retryCheckSend…Chat: 0 sends, 1 waits.
  unfoldable pub take_seat : Sizes → ℤ → String → ℤ → r.Store → r.Store × ℕ
  take_seat cfg now uid cur_rank s =
      let rank_time = get_n_time_slice now in
      let (s', seated) = occupying_a_window_seat cfg rank_time s in
      if leb_ℤ cur_rank (get_window_size cfg rank_time s)
      then (if seated then (queue_dequeue uid s', 0) else (s', 1))
      else (s, 1)

  -- 2 gives up.
  unfoldable pub check_send_chat : Sizes → ℤ → String → r.Store → r.Store × ℕ
  check_send_chat cfg now uid s =
      let (s', cur_rank) = queue_enqueue now uid s in
      if ltb_ℤ cfg.queue_size cur_rank
      then (queue_dequeue uid s', 2)
      else take_seat cfg now uid cur_rank s'

  unfoldable pub retry_check_send_chat : Sizes → ℤ → String → r.Store → r.Store × ℕ
  retry_check_send_chat cfg now uid s = elim (get_queue_rank uid s) [
    | none ↦ (s, 2)
    | some cur_rank ↦ take_seat cfg now uid cur_rank s
  ]

  unfoldable pub clear_queue_timeout_member : ℤ → ℤ → r.Store → r.Store
  clear_queue_timeout_member timeout now s =
      let timeout_score = wrap_int (now -ℤ timeout) in
      ite (ℤ_discrete timeout (pos 0)) (r.z_rem_range_by_score (pos 0) now s)
        (if ltb_ℤ timeout_score (pos 0) then s else r.z_rem_range_by_score (pos 0) timeout_score s)

  abbrev pub check_send_zone_chat : ℤ → String → r.Store → r.Store × ℕ
  check_send_zone_chat = check_send_chat cfg_zone

  abbrev pub retry_check_send_zone_chat : ℤ → String → r.Store → r.Store × ℕ
  retry_check_send_zone_chat = retry_check_send_chat cfg_zone

  abbrev pub check_send_world_chat : ℤ → String → r.Store → r.Store × ℕ
  check_send_world_chat = check_send_chat cfg_world

  abbrev pub retry_check_send_world_chat : ℤ → String → r.Store → r.Store × ℕ
  retry_check_send_world_chat = retry_check_send_chat cfg_world

  abbrev pub clear_zone_queue_timeout_member_timer : ℤ → r.Store → r.Store
  clear_zone_queue_timeout_member_timer = clear_queue_timeout_member (pos 120)

  -- Only the first process of the world servers clears their queue.
  unfoldable pub clear_world_queue_timeout_member_timer : ℤ → ℤ → r.Store → r.Store
  clear_world_queue_timeout_member_timer pid now s =
      ite (ℤ_discrete pid (pos 1)) (clear_queue_timeout_member (pos 120) now s) s
