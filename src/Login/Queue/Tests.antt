-- ===== src/Login/Queue/Tests.antt =====
-- The queue on concrete inputs.
use greatestworks.Base.{
  String_discrete, [], ap, arith, refl, returns, some, sym, true, ◌∷◌, ◌≡◌, ◌≤◌,
}
use greatestworks.Base.Int.{ltb_ℤ, pos, wrap, wrap_int, ℤ, ℤ_discrete, ◌*ℤ◌, ◌+ℤ◌, ◌-ℤ◌}
use greatestworks.Base.Reply.{Reply, failed, nil_reply, value}
use greatestworks.Login.Queue.{
  check_wait_level, dequeue, gen_score, get_queue_rank, get_queue_score, get_window_size,
  login_time_stamp, occupy_window_seat, wait,
}
use greatestworks.Login.Queue.Score.{gen_score_mono, get_queue_score-gen_score}
use greatestworks.Login.Queue.Seats.{IsCounter, check_wait_level_admits, granted, granted-bounded}
use greatestworks.Login.Samples.{Shelf, config, shelves, whole}

value_of : Reply ℤ → ℤ
value_of (value v) = v
value_of nil_reply = pos 0
value_of failed = pos 0

shelves-IsCounter : IsCounter shelves
unfolding value_of
shelves-IsCounter = record {
  count = λ k s. s.used;
  incr_value = λ k s v e. (ap value_of (sym e), refl);
  incr_grows = λ k s. omega arith;
  count-expire = λ k secs s. refl;
}

abbrev waiting : Shelf
waiting = record { used = 3; members = ("a", pos 1782579200000030) ∷ [] }

get_queue_score-gen_score_example :
    get_queue_score (gen_score (pos 1700000005) (pos 1700000000) (pos 0) (pos 30))
    ≡ (pos 1700000000, pos 30)
unfolding ℤ_discrete ◌+ℤ◌
get_queue_score-gen_score_example =
    get_queue_score-gen_score (pos 1700000005) (pos 0) (pos 30) 1700000000 30 (omega arith)
      (omega arith) (omega arith) refl

gen_score_mono_example :
    ltb_ℤ
      (gen_score (pos 1700000005) (pos 1700000000) (pos 0) (pos 30))
      (gen_score (pos 1700000006) (pos 1700000001) (pos 0) (pos 5))
    ≡ true
unfolding ℤ_discrete ◌+ℤ◌
gen_score_mono_example =
    gen_score_mono (pos 1700000005) (pos 1700000006) (pos 0) (pos 0) (pos 30) (pos 5) 1700000000
      1700000001 30 5 (omega arith) (omega arith) (omega arith) (omega arith) (omega arith) refl
      refl

granted-bounded_example :
    granted whole shelves config (pos 7) 250 (record { used = 0; members = [] }) ≤ 100
unfolding shelves-IsCounter
granted-bounded_example =
    granted-bounded whole shelves shelves-IsCounter config (pos 7) 250
      (record { used = 0; members = [] }) refl

first_in_line :
    get_queue_rank whole shelves "a" waiting
    ≡ some (
      pos 1,
      (get_queue_score (pos 1782579200000030)).0,
      (get_queue_score (pos 1782579200000030)).1,
    )
unfolding get_queue_rank String_discrete ◌+ℤ◌ wrap_int wrap
first_in_line = refl

let_in :
    check_wait_level whole shelves config (pos 1700000005) "a" waiting
    ≡ returns (record { used = 4; members = [] }, pos 0, pos 5)
unfolding check_wait_level wait login_time_stamp get_queue_rank get_window_size occupy_window_seat
    dequeue String_discrete ℤ_discrete ◌+ℤ◌ ◌-ℤ◌ ◌*ℤ◌ wrap_int wrap get_queue_score
let_in = refl

this_slice : login_time_stamp whole shelves config (pos 1700000005) ≡ returns (pos 170000000)
unfolding login_time_stamp ℤ_discrete
this_slice = refl

check_wait_level_admits_example :
    ((occupy_window_seat whole shelves config (pos 170000000) waiting).1 ≡ true)
    × (record { used = 4; members = [] }
        ≡ dequeue whole shelves "a"
            (occupy_window_seat whole shelves config (pos 170000000) waiting).0)
check_wait_level_admits_example =
    check_wait_level_admits whole shelves config (pos 1700000005) (pos 170000000) 0 9 "a"
      (get_queue_score (pos 1782579200000030)).0 (get_queue_score (pos 1782579200000030)).1 waiting
      (record { used = 4; members = [] }) (pos 5) refl refl this_slice first_in_line (omega arith)
      let_in
