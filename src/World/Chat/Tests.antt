-- ===== src/World/Chat/Tests.antt =====
-- The chat queues over a Redis that keeps its users and one count in plain sight.
use greatestworks.Base.{
  Bool, List, String, String_discrete, [], arith, false, ite, length, refl, suc, true, ℕ, ◌==◌, ◌∷◌,
  ◌≡◌, ◌⊎◌,
}
use greatestworks.Base.Int.{pos, wrap, wrap_int, ℤ, ◌*ℤ◌, ◌+ℤ◌, ◌-ℤ◌}
use greatestworks.Base.Reply.{Reply, failed, nil_reply, value}
use greatestworks.World.Chat.{
  ChatRedis, cfg_zone, check_send_chat, check_send_zone_chat, get_n_time_slice, get_window_size,
  occupying_a_window_seat, queue_dequeue, queue_enqueue, retry_check_send_chat, take_seat,
}
use greatestworks.World.Chat.Waits.{IsChatQueue, IsSeated, check_send_chat_lem}

abbrev contains : String → List String → Bool
contains u [] = false
contains u (v ∷ l) = ite (String_discrete v u) true (contains u l)

abbrev without : String → List String → List String
without u [] = []
without u (v ∷ l) = ite (String_discrete v u) (without u l) (v ∷ without u l)

abbrev position : ℕ → String → List String → Reply ℤ
position i u [] = nil_reply
position i u (v ∷ l) = ite (String_discrete v u) (value (pos i)) (position (suc i) u l)

abbrev board : ChatRedis
board = record {
  Store = List String × ℕ;
  z_card = λ s. value (pos (length s.0));
  z_add = λ n u s. (u ∷ without u s.0, s.1);
  z_rank = λ u s. position 0 u s.0;
  z_rem = λ u s. (without u s.0, s.1);
  z_rem_range_by_score = λ a b s. ([], s.1);
  get_window = λ k s. value (pos s.1);
  incr_window = λ k s. ((s.0, suc s.1), value (pos (suc s.1)));
  expire_window = λ k secs s. s;
}

contains-without :
    (u v : String) (l : List String)
    → contains v (without u l) ≡ ite (String_discrete u v) false (contains v l)
contains-without u v [] = ground arith
contains-without u v (w ∷ l) = ground (arith, contains-without u v l)

position-contains :
    (i : ℕ) (u : String) (l : List String) (k : ℤ) → position i u l ≡ value k → contains u l ≡ true
position-contains i u [] k h = absurd (cc)
position-contains i u (v ∷ l) k h = ground (arith, position-contains (suc i) u l k)

board-IsChatQueue : IsChatQueue board
board-IsChatQueue = record {
  waits = λ u s. contains u s.0;
  waits-z_add = λ n u v s. ground (arith, contains-without u v s.0);
  waits-z_rem = λ u v s. contains-without u v s.0;
  waits-incr = λ k v s. refl;
  waits-expire = λ k secs v s. refl;
  ranked = λ u s {i} e. position-contains 0 u s.0 i e;
}

abbrev full : List String × ℕ
full = ("a" ∷ [], 1000)

-- The window is used up, so the user waits.
waits_runs : check_send_zone_chat board (pos 7) "b" full ≡ (("b" ∷ "a" ∷ [], 1000), 1)
unfolding check_send_chat queue_enqueue queue_dequeue take_seat get_window_size
    occupying_a_window_seat get_n_time_slice String_discrete wrap_int wrap ◌+ℤ◌ ◌-ℤ◌ ◌*ℤ◌
waits_runs = refl

check_send_chat_lem_example :
    let (s1, answer) = check_send_chat board cfg_zone (pos 7) "b" full in
    let (s2, again) = retry_check_send_chat board cfg_zone (pos 7) "b" full in
    ((v : String)
      → board-IsChatQueue.waits v s1
        ≡ ite (String_discrete "b" v) (answer == 1) (board-IsChatQueue.waits v full))
    × (answer ≡ 0
        → IsSeated board board-IsChatQueue cfg_zone (pos 7) "b" (board.z_add (pos 7) "b" full))
    × ((i : ℤ)
        → board.z_rank "b" full ≡ value i
        → ((v : String)
            → board-IsChatQueue.waits v s2
              ≡ ite (String_discrete "b" v) (again == 1) (board-IsChatQueue.waits v full))
          × (again ≡ 0 → IsSeated board board-IsChatQueue cfg_zone (pos 7) "b" full))
    × ((board.z_rank "b" full ≡ nil_reply) ⊎ (board.z_rank "b" full ≡ failed)
        → (s2 ≡ full) × (again ≡ 2))
check_send_chat_lem_example = check_send_chat_lem board board-IsChatQueue cfg_zone (pos 7) "b" full
