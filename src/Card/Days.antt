-- ===== src/Card/Days.antt =====
-- What the methods of a card do from one day of the game to the next: internal/purchase/card/card.go.
use greatestworks.Aop.Time.{absolute, get_time_stamp_day0_time}
use greatestworks.Aop.Time.SameDay.{game_day, get_time_stamp_day0_time_lem, is_same_day_lem}
use greatestworks.Base.{
  Bool, Option, Option-cases, arith, dec_le, false, if◌then◌else◌, inl, inr, ite, leb, none, not,
  panics, refl, returns, some, subst, sym, true, ℕ, ◌%◌, ◌&&◌, ◌*◌, ◌+◌, ◌<◌, ◌==◌, ◌^◌, ◌||◌, ◌≡◌,
  ◌≤◌,
}
use greatestworks.Base.Int.{
  ltb_ℤ, magnitude, pos, pos_part, wrap_int, wrap_int-add, wrap_int-sub, wrap_int-sub_below,
  wrap_int32-pos, ℤ, ℤ_discrete, ◌*ℤ◌, ◌-ℤ◌,
}
use greatestworks.Card.{
  Card, Category, Config, can_not_renew, check_can_renew, check_is_expired, daily_receive,
  get_add_expire_time, renew, renew_seconds, today_had_received,
}
use greatestworks.Mail.Saved.{add}

-- Whether a card that expires at `expire` may be renewed on the day that begins at `day0`.
abbrev pub can_renew : Card → ℕ → ℕ → ℕ → Bool
can_renew c expire day0 days =
    ite (ℤ_discrete c.can_received_times (pos 0)) true false && leb expire (day0 + days * 86400)

module _ (zone : ℤ) (confs : Category → Option Config) where
  received :
      (now : ℤ) (c c' : Card)
      → daily_receive zone confs now c ≡ returns (c', none)
      → (c' ≡ record c { last_received_time = now })
        × (conf : Config) × (confs c.category ≡ some conf)
  unfolding daily_receive
  received now c c' h = elim (Option-cases (confs c.category)) [
    | inl e ↦ absurd (ground (arith, e, h))
    | inr (conf, e) ↦ (ground (arith, e, h), conf, e)
  ]

  received_again :
      (c : Card) (conf : Config) (now1 now2 : ℕ)
      → magnitude zone ≤ 86400
      → now1 < 2 ^ 62
      → now2 < 2 ^ 62
      → confs c.category ≡ some conf
      → let c' = record c { last_received_time = pos now1 } in
        daily_receive zone confs (pos now2) c'
        ≡ returns (
            if (game_day zone (pos now1) == game_day zone (pos now2))
              || ltb_ℤ c'.expire_time (pos now2)
            then (c', some today_had_received)
            else (record c' { last_received_time = pos now2 }, none))
  unfolding daily_receive check_is_expired
  received_again c conf now1 now2 z h k f = ground (arith, f, is_same_day_lem zone now1 now2 z h k)

  -- After the daily reward of a card is given, it is given again exactly from the next day of the
  -- game on, while the card is not expired: on the same day and once it is expired, the error is
  -- answered, and the card is kept. Both times are below 2 ^ 62, and the zone is at most a day off.
  pub daily_receive-again :
      (c c' : Card) (now1 now2 : ℕ)
      → magnitude zone ≤ 86400
      → now1 < 2 ^ 62
      → now2 < 2 ^ 62
      → daily_receive zone confs (pos now1) c ≡ returns (c', none)
      → daily_receive zone confs (pos now2) c'
        ≡ returns (
            if (game_day zone (pos now1) == game_day zone (pos now2))
              || ltb_ℤ c'.expire_time (pos now2)
            then (c', some today_had_received)
            else (record c' { last_received_time = pos now2 }, none))
  daily_receive-again c c' now1 now2 z h k r =
      let (e, conf, f) = received (pos now1) c c' r in
      subst
        (λ x.
          daily_receive zone confs (pos now2) x
          ≡ returns (
              if (game_day zone (pos now1) == game_day zone (pos now2))
                || ltb_ℤ x.expire_time (pos now2)
              then (x, some today_had_received)
              else (record x { last_received_time = pos now2 }, none)))
        (sym e) (received_again c conf now1 now2 z h k f)

  renew_seconds_lem :
      (conf : Config) (now : ℤ) (days : ℕ)
      → conf.renew_interval ≡ pos days
      → days < 24856
      → renew_seconds zone confs now conf ≡ pos (days * 86400)
  unfolding renew_seconds ◌*ℤ◌
  renew_seconds_lem conf now days h k = ground (
    arith,
    h,
    wrap_int32-pos (days * 24) (omega (arith, k)),
    wrap_int32-pos (days * 24 * 60) (omega (arith, k)),
    wrap_int32-pos (days * 24 * 60 * 60) (omega (arith, k)),
  )

  within :
      (seconds a b : ℕ)
      → a < 2 ^ 61
      → b < 2 ^ 61
      → not (ltb_ℤ (pos seconds) (wrap_int (pos a -ℤ pos b))) ≡ leb a (b + seconds)
  within seconds a b h k = elim (dec_le b a) [
    | yes le ↦ ground (arith, wrap_int-sub a b le (omega (arith, h)))
    | no gt ↦ ground (arith, gt, wrap_int-sub_below a b (omega (arith, gt)) (omega (arith, k)))
  ]

  check_can_renew_lem :
      (c : Card) (conf : Config) (now : ℤ) (days expire day0 : ℕ)
      → c.expire_time ≡ pos expire
      → expire < 2 ^ 61
      → day0 < 2 ^ 61
      → confs c.category ≡ some conf
      → conf.renew_interval ≡ pos days
      → days < 24856
      → get_time_stamp_day0_time zone now ≡ pos day0
      → check_can_renew zone confs now c ≡ returns (can_renew c expire day0 days)
  unfolding check_can_renew
  check_can_renew_lem c conf now days expire day0 e b b' f i d t =
      elim (ℤ_discrete c.can_received_times (pos 0))
        as (λ q.
          ite q
            (elim (confs c.category) [
              | none ↦ panics
              | some conf ↦ returns (
                  not (
                    ltb_ℤ (renew_seconds zone confs now conf)
                      (wrap_int (c.expire_time -ℤ get_time_stamp_day0_time zone now))))
            ])
            (returns false)
          ≡ returns (ite q true false && leb expire (day0 + days * 86400))) [
            | yes y ↦ ground (
              arith,
              e,
              f,
              t,
              renew_seconds_lem conf now days i d,
              within (days * 86400) expire day0 b b',
            )
            | no n ↦ refl
          ]

  add_bound :
      (cat : Category)
      → get_add_expire_time cat ≡ pos (pos_part (get_add_expire_time cat))
        × (pos_part (get_add_expire_time cat) ≤ 2592000)
  unfolding get_add_expire_time
  add_bound cat = ground arith

  renewed :
      (c : Card) (now expire : ℕ) (ok : Bool)
      → c.expire_time ≡ pos expire
      → expire < 2 ^ 61
      → check_can_renew zone confs (pos now) c ≡ returns ok
      → renew zone confs (pos now) c
        ≡ returns (
            if ok
            then (
              record c {
                buy_time = pos now;
                expire_time = pos (expire + pos_part (get_add_expire_time c.category));
              },
              none,
            )
            else (c, some can_not_renew))
  unfolding renew
  renewed c now expire ok e b h =
      let (add, le) = add_bound c.category in
      let sum =
        wrap_int-add expire (pos_part (get_add_expire_time c.category)) (omega (arith, le, b)) in
      ground (arith, e, h, add, sum)

  -- A card is renewed exactly if it has no times left to receive and the day of `now` is no more than
  -- the configured days before it expires; it then lasts for its category's days longer, and is
  -- kept with an error otherwise. Its category must be configured, with days from 0 to 24855: beyond,
  -- the seconds wrap around as an int32. `now` is later than the second day of 1970, the card expires
  -- in 1970 or later, both times are below 2 ^ 61, and the zone is at most a day off.
  pub renew_lem :
      (c : Card) (conf : Config) (now days expire : ℕ)
      → magnitude zone ≤ 86400
      → 2 * 86400 ≤ now
      → now < 2 ^ 61
      → c.expire_time ≡ pos expire
      → expire < 2 ^ 61
      → confs c.category ≡ some conf
      → conf.renew_interval ≡ pos days
      → days < 24856
      → (day0 : ℕ) × (day0 ≤ now)
        × (now < day0 + 86400)
        × (absolute zone (pos day0) % 86400 ≡ 0)
        × (renew zone confs (pos now) c
            ≡ returns (
                if can_renew c expire day0 days
                then (
                  record c {
                    buy_time = pos now;
                    expire_time = pos (expire + pos_part (get_add_expire_time c.category));
                  },
                  none,
                )
                else (c, some can_not_renew)))
  renew_lem c conf now days expire z h k e b f i d =
      let (day0, t, le, lt, at) = get_time_stamp_day0_time_lem zone now z h (omega (arith, k)) in
      (
        day0,
        le,
        lt,
        at,
        renewed c now expire (can_renew c expire day0 days) e b (
            check_can_renew_lem c conf (pos now) days expire day0 e b (omega (arith, le, k)) f i d
              t),
      )
