-- ===== src/Login/Handler/Tests.antt =====
-- The login handler on concrete inputs.
use greatestworks.Base.{String_discrete, [], arith, false, none, refl, some, true, ℕ, ◌+◌, ◌∷◌, ◌≡◌}
use greatestworks.Base.Float32.{thousandths}
use greatestworks.Base.Int.{pos, pos_part, wrap, wrap_int, ◌-ℤ◌}
use greatestworks.Base.Reply.{value}
use greatestworks.Login.Handler.{
  AccountData, AccountRedis, HandlerConfig, LoginGm, Server, Texts, account_of, fetch_ip_white_list,
  is_ip_in_white_list, on_timer,
}
use greatestworks.Login.Handler.Daily.{IsDailyCounter, registered, registered_lem}
use greatestworks.Login.Handler.Login.{login}
use greatestworks.Login.Handler.Never.{Answered, login-Refused}
use greatestworks.Login.Handler.NoGateway.{Answer, discovered}
use greatestworks.Login.Queue.{QueueConfig}
use greatestworks.Login.Samples.{
  Shelf, config, gateway_entry, performance, settings, shelves, whole, world_entry,
}
use greatestworks.Login.Zone.{new_zone_manager}
use greatestworks.Login.Zone.Empty.{fresh}

-- The day's count is the count of the shelf, with a limit of 2.
abbrev accounts : AccountRedis Shelf
accounts = record {
  daily_limit = λ s. value (pos 2);
  daily_count = λ s. value (pos s.used);
  add_daily = λ c s. record s { used = s.used + pos_part c };
  in_white_list = λ m s. false;
  account_zone = λ u s. none;
  account_gateway = λ u s. "";
  clock = λ s. pos 2000;
  tick = λ u s. pos 0;
  set_account = λ u g z s. (s, false);
  set_token = λ u t s. s;
  set_robot = λ m s. s;
  kick_out = λ u s. s;
  sleep = λ s. s;
}

accounts-IsDailyCounter : IsDailyCounter accounts
accounts-IsDailyCounter = record {
  limit_kept = λ c s. refl;
  counts_on = λ n s h. ground (arith, h);
}

abbrev texts : Texts
texts = record {
  check_sign = λ m s. true;
  is_address = λ t. false;
  tcp_addr = λ ip port. ip;
  service_id = λ t. t;
  is_robot = λ m. false;
}

abbrev handler : HandlerConfig
handler = record { white_list_check = false; use_public_network = true }

abbrev account : AccountData
account = record {
  zone_id = pos 0;
  account = "b";
  password = "p";
  sign = "s";
  sid = "";
  token = "";
}

abbrev answer : ℕ → Answer
answer n = record {
  now = pos 2000;
  gateways = some (gateway_entry ∷ []);
  worlds = some (world_entry ∷ []);
}

abbrev server : Server Shelf
server = record {
  zones = new_zone_manager;
  ratio = pos 1;
  store = record { used = 1; members = [] };
}

abbrev white_list : LoginGm
white_list = record { fetch_interval_sec = pos 30; last_fetch_time = pos 0; ip_white_list = [] }

abbrev no_queue : QueueConfig whole
no_queue = record config { enable_login_queue = false }

on_timer_runs :
    is_ip_in_white_list "10.0.0.1"
      (on_timer (pos 40) (("10.0.0.1", "1") ∷ ("10.0.0.2", "0") ∷ []) white_list)
    ≡ true
unfolding is_ip_in_white_list on_timer fetch_ip_white_list String_discrete wrap_int wrap ◌-ℤ◌
on_timer_runs = refl

login-Refused_example :
    Answered thousandths whole settings no_queue shelves accounts texts handler performance answer
      (λ n. n)
      (account_of account)
      server
      (login thousandths whole settings no_queue shelves accounts texts handler
        (discovered thousandths settings performance answer)
        (λ n. n)
        (account_of account)
        "10.0.0.1"
        white_list
        server)
login-Refused_example =
    login-Refused thousandths whole settings no_queue shelves accounts texts handler performance
      answer (λ n. n) (account_of account) "10.0.0.1" white_list server fresh

-- After one registration, with a limit of 2, two more of five are let through.
registered_lem_example : registered accounts 5 server.store ≡ 2
registered_lem_example =
    registered_lem accounts accounts-IsDailyCounter 1 1 5 server.store refl refl
