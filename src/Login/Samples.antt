-- ===== src/Login/Samples.antt =====
-- Values that the tests of the login server share: a Redis that keeps its counts and members in
-- plain sight, whole numbers for floats, and settings.
use greatestworks.Base.{
  List, String, String_discrete, [], ite, length, suc, true, ℕ, ◌*◌, ◌+◌, ◌-◌, ◌/◌, ◌∷◌,
}
use greatestworks.Base.Int.{pos, pos_part, ℤ}
use greatestworks.Base.Reply.{Reply, nil_reply, value}
use greatestworks.Login.Config.{Me, ServiceEntry}
use greatestworks.Login.Queue.{Float64, QueueConfig, QueueRedis}
use greatestworks.Login.Zone.{Performance}

pub record Shelf : Type 0 where
  pub used : ℕ  -- the count of every window
  pub members : List (String × ℤ)

abbrev pub position : String → List (String × ℤ) → Reply ℕ
position m [] = nil_reply
position m ((k, v) ∷ ms) =
    let rest = position m ms in
    ite (String_discrete k m) (value 0) (elim rest [ value i ↦ value (suc i) | _ ↦ nil_reply ])

abbrev pub score_in : String → List (String × ℤ) → Reply ℤ
score_in m [] = nil_reply
score_in m ((k, v) ∷ ms) = ite (String_discrete k m) (value v) (score_in m ms)

abbrev pub shelves : QueueRedis
shelves = record {
  Store = Shelf;
  z_card = λ s. pos (length s.members);
  z_rank = λ m s. position m s.members;
  z_score = λ m s. score_in m s.members;
  z_rem = λ ms s. record s { members = [] };
  z_add = λ v m s. record s { members = (m, v) ∷ s.members };
  z_range = λ s. s.members;
  get_window = λ k s. value (pos s.used);
  incr_window = λ k s. (record s { used = suc s.used }, value (pos (suc s.used)));
  expire_window = λ k secs s. s;
}

-- Whole numbers, rounded up.
abbrev pub whole : Float64
whole = record {
  F = ℕ;
  of_int = pos_part;
  div = λ a b. (a + b - 1) / b;
  mul = λ a b. a * b;
  ceil = λ a. a;
  to_int = pos;
}

abbrev pub config : QueueConfig whole
config = record {
  time_stamp = pos 10;
  enable_login_queue = true;
  retry_ratio = 5;
  queue_length = pos 1;
  process_id = pos 1;
}

abbrev pub settings : Me
settings = record {
  player_num_hour = pos 2;
  players_delta_cnt = pos 100;
  players_server_cnt = pos 3;
  max_world_player_num = 3000;
  time_stamp = pos 0;
}

abbrev pub gateway_entry : ServiceEntry
gateway_entry = record { id = "g"; address = "10.0.0.9"; port = pos 1; service = "gw"; tags = [] }

abbrev pub world_entry : ServiceEntry
world_entry = record {
  id = "w";
  address = "10.0.0.8";
  port = pos 2;
  service = "world";
  tags = "t" ∷ [];
}

abbrev pub performance : String → Performance
performance tag = record {
  zid = pos 1;
  p_idx = pos 4;
  player_num = pos 10;
  max_player_num = pos 0;
  begin_tm = pos 1000;
}
