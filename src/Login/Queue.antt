-- ===== src/Login/Queue.antt =====
-- server/login/queue.go: the queue of accounts that wait to log in, and the window of seats that
-- opens in each time slice. Both are kept in Redis, a parameter; so is `float64`.
pub mod Score
pub mod Seats
mod Tests
use greatestworks.Base.{
  Bool, List, Option, Outcome, String, [], false, if◌then◌else◌, ite, length, ltb, none, not,
  panics, returns, some, ℕ, ◌&&◌, ◌-◌, ◌^◌, ◌∷◌,
}
use greatestworks.Base.Bits.{and_int, or_int, shift_left, shift_right}
use greatestworks.Base.Int.{ltb_ℤ, pos, quot, wrap, wrap_int, ℤ, ℤ_discrete, ◌*ℤ◌, ◌+ℤ◌, ◌-ℤ◌}
use greatestworks.Base.Reply.{Reply, failed, nil_reply, value}
use greatestworks.Login.Gateway.Fresh.{clears}

-- The calls of the Redis client. A score is a `float64` that was made from an `int64` and is read
-- as one. A window has one key for each time slice.
pub record QueueRedis : Type 1 where
  pub Store : Type 0
  pub z_card : Store → ℤ
  pub z_rank : String → Store → Reply ℕ
  pub z_score : String → Store → Reply ℤ
  pub z_rem : List String → Store → Store
  -- ZAdd through a client of its own, `redis.NewClusterClient(nil)`
  pub z_add : ℤ → String → Store → Store
  -- ZRangeWithScores from 0 to LoginWindowSize
  pub z_range : Store → List (String × ℤ)
  -- Get(windowKey).Int64(), Incr(windowKey) and Expire(windowKey, seconds)
  pub get_window : ℤ → Store → Reply ℤ
  pub incr_window : ℤ → Store → Store × Reply ℤ
  pub expire_window : ℤ → ℤ → Store → Store

pub record Float64 : Type 1 where
  pub F : Type 0
  pub of_int : ℤ → F
  pub div : F → F → F
  pub mul : F → F → F
  pub ceil : F → F
  pub to_int : F → ℤ

-- The settings of `config.Me` for the queue, and the global `config.QueueLength`.
pub record QueueConfig (fl : Float64) : Type 0 where
  pub time_stamp : ℤ
  pub enable_login_queue : Bool
  pub retry_ratio : fl.F
  pub queue_length : ℤ
  pub process_id : ℤ

abbrev pub login_window_size : ℤ
login_window_size = pos 100

abbrev pub login_time_stamp_mcu : ℤ
login_time_stamp_mcu = pos 60

abbrev pub wait_time_limit : ℤ
wait_time_limit = pos 10

abbrev pub wait_time_bit_len : ℕ
wait_time_bit_len = 20

abbrev pub max_retry_wait_time : ℤ
max_retry_wait_time = pos 30

abbrev pub max_login_queue_length : ℤ
max_login_queue_length = pos 1000000

unfoldable pub gen_score : ℤ → ℤ → ℤ → ℤ → ℤ
unfolding or_int shift_left wrap_int wrap ◌+ℤ◌ ◌-ℤ◌ ℤ_discrete
gen_score now score last_wait_time wait_time =
    let since = ite (ℤ_discrete score (pos 0)) now score in
    let last = ite (ℤ_discrete last_wait_time (pos 0)) last_wait_time (wrap_int (now -ℤ since)) in
    or_int (shift_left since wait_time_bit_len) (wrap_int (last +ℤ wait_time))

-- The time and the waiting time that a score holds.
unfoldable pub get_queue_score : ℤ → ℤ × ℤ
unfolding and_int wrap_int wrap
get_queue_score score =
    (shift_right score wait_time_bit_len, and_int score (pos (2 ^ wait_time_bit_len - 1)))

module _ (fl : Float64) (r : QueueRedis) where
  -- The time slice, of at most LoginTimeStampMcu seconds.
  abbrev pub time_slice : QueueConfig fl → ℤ
  time_slice cfg =
      if ltb_ℤ login_time_stamp_mcu cfg.time_stamp then login_time_stamp_mcu else cfg.time_stamp

  unfoldable pub login_time_stamp : QueueConfig fl → ℤ → Outcome ℤ
  login_time_stamp cfg now =
      ite (ℤ_discrete (time_slice cfg) (pos 0)) panics (returns (quot now (time_slice cfg)))

  unfoldable pub enqueue : ℤ → String → r.Store → r.Store
  unfolding gen_score
  enqueue now account s = r.z_add (gen_score now (pos 0) (pos 0) max_retry_wait_time) account s

  unfoldable pub enqueue_with_wait_time : ℤ → String → ℤ → ℤ → ℤ → r.Store → r.Store
  unfolding gen_score
  enqueue_with_wait_time now dev cur_score last_wait_time wait_time s =
      r.z_add (gen_score now cur_score last_wait_time wait_time) dev s

  unfoldable pub dequeue : String → r.Store → r.Store
  dequeue account s = r.z_rem (account ∷ []) s

  -- The rank, the score and the waiting time; `none` is an error.
  unfoldable pub get_queue_rank : String → r.Store → Option (ℤ × ℤ × ℤ)
  unfolding get_queue_score
  get_queue_rank account s = elim (r.z_rank account s) [
    | nil_reply ↦ none
    | failed ↦ none
    | value idx ↦ elim (r.z_score account s) [
      | nil_reply ↦ none
      | failed ↦ some (pos 9223372036854775807, pos 0, pos 0)
      | value score ↦
          (let (since, wait_time) = get_queue_score score in
            some (wrap_int (pos idx +ℤ pos 1), since, wait_time))
    ]
  ]

  unfoldable pub get_window_size : ℤ → r.Store → ℤ
  get_window_size rank_time s =
      let left = λ (used : ℤ).
        let size = wrap_int (login_window_size -ℤ used) in
        if ltb_ℤ size (pos 0) then pos 0 else size in
      elim (r.get_window rank_time s) [
        | value used ↦ left used
        | nil_reply ↦ left (pos 0)
        | failed ↦ pos 0
      ]

  unfoldable pub occupy_window_seat : QueueConfig fl → ℤ → r.Store → r.Store × Bool
  occupy_window_seat cfg rank_time s =
      let (s', cur_value) = r.incr_window rank_time s in
      elim cur_value [
        | nil_reply ↦ (s', false)
        | failed ↦ (s', false)
        | value v ↦ (
          r.expire_window rank_time (wrap_int (pos 2 *ℤ time_slice cfg)) s',
          not (ltb_ℤ login_window_size v),
        )
      ]

  -- int(waitRankTime/waitLevelRatio + 1)
  abbrev pub level_of : ℤ → ℤ → Outcome ℤ
  level_of cur_rank ratio =
      ite (ℤ_discrete ratio (pos 0)) panics
        (returns (wrap_int (quot (quot cur_rank login_window_size) ratio +ℤ pos 1)))

  abbrev pub wait_time_of : QueueConfig fl → ℤ → ℤ → ℤ
  wait_time_of cfg cur_rank ratio =
      let wait_ratio =
        fl.ceil (fl.div (fl.of_int cur_rank) (fl.of_int (wrap_int (login_window_size *ℤ ratio)))) in
      let wait_time = fl.to_int (fl.ceil (fl.mul cfg.retry_ratio wait_ratio)) in
      if ltb_ℤ max_retry_wait_time wait_time then max_retry_wait_time else wait_time

  -- The waiting level of a rank, with the store after a try for a seat.
  abbrev pub seated : QueueConfig fl → ℤ → ℤ → ℤ → r.Store → Outcome (r.Store × ℤ)
  seated cfg rank_time cur_rank ratio s =
      let window_size = get_window_size rank_time s in
      let (s', ok) = occupy_window_seat cfg rank_time s in
      let waits : r.Store → Outcome (r.Store × ℤ) = λ t. elim (level_of cur_rank ratio) [
        | panics ↦ panics
        | returns level ↦ returns (t, level)
      ] in
      if ltb_ℤ (pos 0) window_size && not (ltb_ℤ window_size cur_rank)
      then (if ok then returns (s', pos 0) else waits s')
      else waits s

  abbrev pub settled : ℤ → String → ℤ → ℤ → ℤ → r.Store × ℤ → r.Store × ℤ × ℤ
  settled now account score last_wait wait_time (s, level) =
      ite (ℤ_discrete level (pos 0)) (dequeue account s, level, wait_time)
        (if ltb_ℤ (pos 0) level
          then (enqueue_with_wait_time now account score last_wait wait_time s, level, wait_time)
          else (s, level, wait_time))

  -- The part of checkWaitLevel that follows GetQueueRank.
  unfoldable pub wait :
      QueueConfig fl → ℤ → ℤ → ℤ → String → ℤ × ℤ × ℤ → r.Store → Outcome (r.Store × ℤ × ℤ)
  unfolding get_window_size occupy_window_seat dequeue enqueue_with_wait_time
  wait cfg now rank_time ratio account (cur_rank, score, last_wait) s =
      elim (seated cfg rank_time cur_rank ratio s) [
        | panics ↦ panics
        | returns t ↦
            returns (settled now account score last_wait (wait_time_of cfg cur_rank ratio) t)
      ]

  unfoldable pub check_wait_level :
      QueueConfig fl → ℤ → String → r.Store → Outcome (r.Store × ℤ × ℤ)
  unfolding wait login_time_stamp get_queue_rank enqueue
  check_wait_level cfg now account s =
      let ratio = quot login_time_stamp_mcu (time_slice cfg) in
      if not cfg.enable_login_queue
      then returns (s, pos 0, pos 0)
      else elim (login_time_stamp cfg now) [
        | panics ↦ panics
        | returns rank_time ↦ elim (get_queue_rank account s) [
          | some ranked ↦ wait cfg now rank_time ratio account ranked s
          | none ↦
              if ltb_ℤ max_login_queue_length cfg.queue_length
              then elim (level_of cfg.queue_length ratio) [
                | panics ↦ panics
                | returns level ↦ returns (s, level, max_retry_wait_time)
              ]
              else wait cfg now rank_time ratio account (pos 0, pos 0, pos 0)
                  (enqueue now account s)
        ]
      ]

  -- The loop of clearTimeoutMember.
  abbrev pub timed_out : ℤ → List (String × ℤ) → List String
  timed_out now [] = []
  timed_out now ((dev, score) ∷ top) =
      let (rank_time, wait_time) = get_queue_score score in
      let rest = timed_out now top in
      if ltb_ℤ (wrap_int (wrap_int (rank_time +ℤ wait_time) +ℤ wait_time_limit)) now
      then dev ∷ rest
      else rest

  unfoldable pub clear_timeout_member : QueueConfig fl → ℤ → r.Store → r.Store
  unfolding get_queue_score
  clear_timeout_member cfg now s =
      let clears = timed_out now (r.z_range s) in
      ite (ℤ_discrete cfg.process_id (pos 1))
        (if ltb 0 (length clears) then r.z_rem clears s else s) s
