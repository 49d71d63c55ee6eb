-- ===== src/Card/Tests.antt =====
-- Tests of the cards, and their theorems at concrete cards.
use greatestworks.Aop.Time.{absolute, is_same_day}
use greatestworks.Aop.Time.SameDay.{game_day}
use greatestworks.Base.{
  List, Option, [], arith, if◌then◌else◌, none, panics, refl, returns, some, ℕ, ◌%◌, ◌+◌, ◌<◌, ◌==◌,
  ◌||◌, ◌∷◌, ◌≡◌, ◌≤◌,
}
use greatestworks.Base.Int.{ltb_ℤ, pos, pos_part, wrap, wrap_int, ℤ, ◌-ℤ◌}
use greatestworks.Card.{
  Card, CardData, Category, Config, act, buy, buy_card, can_not_renew, check_is_expired,
  daily_receive, daily_received, execute, get_add_expire_time, renew, today_had_received, weekly,
  zero_card,
}
use greatestworks.Card.Days.{can_renew, daily_receive-again, renew_lem}
use greatestworks.Card.Forgets.{Call, daily-Refused, run_calls}
use greatestworks.Card.Handlers.{get_handler, handler_card_register, not_in}

abbrev china : ℤ
china = pos 28800

abbrev conf : Config
conf = record {
  conf_category = 1;
  daily_reward = 100;
  last_days = pos 7;
  renew_interval = pos 3;
  buy_reward = 5;
  desc = "weekly";
}

abbrev confs : Category → Option Config
confs cat = some conf

abbrev card : Card
card = record zero_card { expire_time = pos 1710000000; category = weekly }

abbrev after : Card
after = record card { last_received_time = pos 1709236800 }

received_once : daily_receive china confs (pos 1709236800) card ≡ returns (after, none)
unfolding daily_receive check_is_expired is_same_day wrap_int wrap ◌-ℤ◌
received_once = refl

daily_receive-again_example :
    daily_receive china confs (pos 1709240000) after
    ≡ returns (
        if (game_day china (pos 1709236800) == game_day china (pos 1709240000))
          || ltb_ℤ after.expire_time (pos 1709240000)
        then (after, some today_had_received)
        else (record after { last_received_time = pos 1709240000 }, none))
daily_receive-again_example =
    daily_receive-again china confs card after 1709236800 1709240000 (omega arith) (omega arith)
      (omega arith) received_once

renew_lem_example :
    (day0 : ℕ) × (day0 ≤ 1709800000)
    × (1709800000 < day0 + 86400)
    × (absolute china (pos day0) % 86400 ≡ 0)
    × (renew china confs (pos 1709800000) card
        ≡ returns (
            if can_renew card 1710000000 day0 3
            then (
              record card {
                buy_time = pos 1709800000;
                expire_time = pos (1710000000 + pos_part (get_add_expire_time weekly));
              },
              none,
            )
            else (card, some can_not_renew)))
renew_lem_example =
    renew_lem china confs card conf 1709800000 3 1710000000 (omega arith) (omega arith)
      (omega arith) refl (omega arith) refl refl (omega arith)

abbrev no_cards : CardData
no_cards = record { cards = [] }

abbrev bought : List Call
bought = record { now = pos 1709236800; category = weekly; action = buy_card } ∷ []

bought_runs : run_calls china confs bought no_cards ≡ returns no_cards
unfolding execute act buy
bought_runs = refl

daily-Refused_example :
    execute china confs (pos 1709240000) no_cards weekly daily_received
    ≡ returns (no_cards, some today_had_received)
daily-Refused_example =
    daily-Refused china confs bought no_cards no_cards weekly 1709240000 refl (omega arith)
      bought_runs

-- No id of the range is let through.
in_range : get_handler (pos 10) (pos 20) (record { id = pos 15 } ∷ []) (pos 15) ≡ not_in
unfolding get_handler
in_range = refl

registers_nothing : handler_card_register (pos 15) [] ≡ panics
unfolding handler_card_register
registers_nothing = refl
