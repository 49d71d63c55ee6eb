-- ===== src/Card.antt =====
-- The cards that a player buys: internal/purchase/card. The time, the configuration of cards and the
-- local zone are arguments; what is printed is left out.
pub mod Handlers
pub mod Days
pub mod Forgets
mod Tests
use greatestworks.Aop.Time.{get_time_stamp_day0_time, is_same_day}
use greatestworks.Base.{
  Bool, List, Option, Outcome, String, false, if◌then◌else◌, ite, none, not, panics, returns, some,
  ℕ, ℕ_discrete, ◌*◌, ◌==◌, ◌||◌,
}
use greatestworks.Base.Int.{ltb_ℤ, pos, wrap_int, wrap_int32, ℤ, ℤ_discrete, ◌*ℤ◌, ◌+ℤ◌, ◌-ℤ◌}
use greatestworks.Base.SyncMap.{load}

abbrev pub Category : Type 0
Category = ℕ

abbrev pub weekly : Category
weekly = 1

abbrev pub monthly : Category
monthly = 2

unfoldable pub get_add_expire_time : Category → ℤ
get_add_expire_time c =
    if weekly == c
    then pos (7 * 24 * 60 * 60)
    else if monthly == c
    then pos (30 * 24 * 60 * 60)
    else pos 0

pub record Config : Type 0 where
  pub conf_category : ℕ
  pub daily_reward : ℕ
  pub last_days : ℤ
  pub renew_interval : ℤ
  pub buy_reward : ℕ
  pub desc : String

pub record Card : Type 0 where
  pub can_received_times : ℤ
  pub buy_time : ℤ
  pub expire_time : ℤ
  pub last_received_time : ℤ
  pub category : Category

-- Go's zero value.
abbrev pub zero_card : Card
zero_card = record {
  can_received_times = pos 0;
  buy_time = pos 0;
  expire_time = pos 0;
  last_received_time = pos 0;
  category = 0;
}

pub record CardData : Type 0 where
  pub cards : List (Category × Card)

pub data CardAction : Type 0 where
  daily_received renew_card buy_card other_action : CardAction

-- The errors, by their texts.
pub data CardError : Type 0 where
  today_had_received can_not_renew action_not_exist : CardError

unfoldable pub check_is_expired : ℤ → Card → Bool
check_is_expired now c = ltb_ℤ c.expire_time now

-- What a method on a card leaves of it, and its error.
abbrev pub Result : Type 0
Result = Card × Option CardError

-- d.Cards[category]: a copy, and a card of zeros for a missing key.
unfoldable pub card_of : CardData → Category → Card
card_of d cat = elim (load ℕ_discrete cat d.cards) [ none ↦ zero_card | some c ↦ c ]

module _ (zone : ℤ) (get_card_conf : Category → Option Config) (now : ℤ) where
  unfoldable pub check_is_same_day : Card → Bool
  check_is_same_day c = is_same_day zone c.last_received_time now

  -- Without a configuration, the reward is read through a nil pointer.
  unfoldable pub daily_receive : Card → Outcome Result
  daily_receive c =
      if is_same_day zone c.last_received_time now || check_is_expired now c
      then returns (c, some today_had_received)
      else elim (get_card_conf c.category) [
        | none ↦ panics
        | some conf ↦ returns (record c { last_received_time = now }, none)
      ]

  -- The interval is multiplied as an int32.
  unfoldable pub renew_seconds : Config → ℤ
  renew_seconds conf =
      wrap_int32 (wrap_int32 (wrap_int32 (conf.renew_interval *ℤ pos 24) *ℤ pos 60) *ℤ pos 60)

  unfoldable pub check_can_renew : Card → Outcome Bool
  check_can_renew c =
      ite (ℤ_discrete c.can_received_times (pos 0))
        (elim (get_card_conf c.category) [
          | none ↦ panics
          | some conf ↦ returns (
              not (
                ltb_ℤ (renew_seconds conf)
                  (wrap_int (c.expire_time -ℤ get_time_stamp_day0_time zone now))))
        ])
        (returns false)

  unfoldable pub renew : Card → Outcome Result
  renew c = elim (check_can_renew c) [
    | panics ↦ panics
    | returns ok ↦
        if ok
        then returns (
          record c {
            buy_time = now;
            expire_time = wrap_int (c.expire_time +ℤ get_add_expire_time c.category);
          },
          none,
        )
        else returns (c, some can_not_renew)
  ]

  unfoldable pub buy : Card → Outcome Result
  buy c = returns (
    record c { buy_time = now; expire_time = wrap_int (now +ℤ get_add_expire_time c.category) },
    none,
  )

  unfoldable pub check_can_buy : Card → Bool
  check_can_buy c =
      ite (ℤ_discrete c.can_received_times (pos 0)) (not (ltb_ℤ now c.expire_time)) false

  unfoldable pub act : CardAction → Card → Outcome Result
  act daily_received c = daily_receive c
  act renew_card c = renew c
  act buy_card c = buy c
  act other_action c = returns (c, some action_not_exist)

  -- The method works on the copy, which is not stored again.
  unfoldable pub execute : CardData → Category → CardAction → Outcome (CardData × Option CardError)
  execute d cat action = elim (act action (card_of d cat)) [
    | panics ↦ panics
    | returns (c, err) ↦ returns (d, err)
  ]
