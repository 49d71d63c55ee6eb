-- ===== src/Aop/Time/SameDay.antt =====
-- IsSameDay of aop/fn/time.go against the number of the day: a day of the game begins at 5.
use greatestworks.Aop.Time.{
  abs_int64, absolute, cycle, date_day, day_of, day_start_hour, get_time_stamp_day0_time, hour_of,
  is_same_day, month_day, one_day_sec, unix_to_absolute,
}
use greatestworks.Aop.Time.Months.{month_day-cycle}
use greatestworks.Base.{
  ap, arith, dec_le, dec_lt, if◌then◌else◌, leb, not, suc, ℕ, ℕ_discrete, ◌%◌, ◌&&◌, ◌*◌, ◌+◌, ◌-◌,
  ◌/◌, ◌<◌, ◌==◌, ◌^◌, ◌||◌, ◌≡◌, ◌≤◌,
}
use greatestworks.Base.Int.{
  magnitude, neg_part, negsuc, pos, pos_part, wrap_int, wrap_int-pos, wrap_int-sub,
  wrap_int-sub_below, ℤ, ◌+ℤ◌, ◌-ℤ◌,
}

-- The day of the game, counted from Go's first day.
abbrev pub game_day : ℤ → ℤ → ℕ
game_day zone t = (absolute zone t - day_start_hour * 3600) / one_day_sec

pub absolute_lem :
    (zone : ℤ) (t : ℕ)
    → magnitude zone ≤ 86400
    → t < 2 ^ 62
    → absolute zone (pos t) + neg_part zone ≡ t + pos_part zone + unix_to_absolute
unfolding absolute ◌+ℤ◌
absolute_lem (pos z) t h k = ground (arith, h, k)
absolute_lem (negsuc z) t h k = ground (arith, h, k)

wrap_int-opposite : (n : ℕ) → suc n < 2 ^ 63 → wrap_int (pos 0 -ℤ negsuc n) ≡ pos (suc n)
unfolding ◌-ℤ◌
wrap_int-opposite n h = ground (arith, wrap_int-pos (suc n) h)

distance :
    (t1 t2 : ℕ)
    → t1 < 2 ^ 62
    → t2 < 2 ^ 62
    → abs_int64 (wrap_int (pos t1 -ℤ pos t2)) ≡ pos ((t1 - t2) + (t2 - t1))
distance t1 t2 h k = elim (dec_le t2 t1) [
  | yes le ↦ ground (arith, wrap_int-sub t1 t2 le (omega (arith, h)))
  | no gt ↦
      let below = wrap_int-sub_below t1 t2 (omega (arith, gt)) (omega (arith, k)) in
      ground (arith, gt, below, wrap_int-opposite (t2 - t1 - 1) (omega (arith, k)))
]

date_day-same : (a b : ℕ) → day_of a ≡ day_of b → date_day a ≡ date_day b
unfolding date_day
date_day-same a b h = ap (λ d. month_day (cycle 400) (d % 146097)) h

date_day-next : (a b : ℕ) → day_of b ≡ suc (day_of a) → ¬ (date_day a ≡ date_day b)
unfolding date_day
date_day-next a b h e = month_day-cycle (day_of a) (day_of b) h e

same_hours :
    (a b : ℕ)
    → day_start_hour * 3600 ≤ a
    → day_start_hour * 3600 ≤ b
    → (a - b) + (b - a) ≤ 86400
    → let started1 = leb day_start_hour (hour_of a) in
      let started2 = leb day_start_hour (hour_of b) in
      (if date_day a == date_day b
        then (started1 && started2) || (not started1 && not started2)
        else (started1 && not started2) || (not started1 && started2))
      ≡ ((a - day_start_hour * 3600) / one_day_sec == (b - day_start_hour * 3600) / one_day_sec)
same_hours a b h k d = elim (ℕ_discrete (day_of a) (day_of b)) [
  | yes e ↦ ground (arith, e, h, k, date_day-same a b e)
  | no n ↦ elim (dec_lt (day_of a) (day_of b)) [
    | yes l ↦
        let e : day_of b ≡ suc (day_of a) = omega (arith, l, d) in
        ground (arith, e, d, h, k, date_day-next a b e)
    | no g ↦
        let e : day_of a ≡ suc (day_of b) = omega (arith, n, g, d) in
        ground (arith, e, d, h, k, date_day-next b a e)
  ]
]

less_zone :
    (zone : ℤ) (n : ℕ)
    → unix_to_absolute + pos_part zone ≤ n + neg_part zone
    → pos n -ℤ pos unix_to_absolute -ℤ zone
      ≡ pos (n + neg_part zone - (unix_to_absolute + pos_part zone))
unfolding ◌-ℤ◌
less_zone (pos z) n h = ground (arith, h)
less_zone (negsuc z) n h = ground (arith, h)

-- Two times, of a zone at most a day ahead or behind, are the same day for `IsSameDay` exactly if
-- they are on the same day of the game, for times from 1970 on and below 2 ^ 62. It compares the days
-- of the month and the hours, and the months and years not at all.
pub is_same_day_lem :
    (zone : ℤ) (t1 t2 : ℕ)
    → magnitude zone ≤ 86400
    → t1 < 2 ^ 62
    → t2 < 2 ^ 62
    → is_same_day zone (pos t1) (pos t2) ≡ (game_day zone (pos t1) == game_day zone (pos t2))
unfolding is_same_day
is_same_day_lem zone t1 t2 z h k =
    let a = absolute_lem zone t1 z h in
    let b = absolute_lem zone t2 z k in
    elim (dec_lt 86400 ((t1 - t2) + (t2 - t1))) [
      | yes far ↦ ground (arith, far, distance t1 t2 h k, a, b, z)
      | no near ↦ ground (
        arith,
        near,
        distance t1 t2 h k,
        same_hours (absolute zone (pos t1)) (absolute zone (pos t2)) (omega (arith, a, z))
            (omega (arith, b, z)) (omega (arith, a, b, near)),
      )
    ]

-- The day that a time is on begins at the answer: for a time after the second day of 1970, it is at
-- most a day before, and at 0 o'clock.
pub get_time_stamp_day0_time_lem :
    (zone : ℤ) (t : ℕ)
    → magnitude zone ≤ 86400
    → 2 * 86400 ≤ t
    → t < 2 ^ 62
    → (day0 : ℕ) × (get_time_stamp_day0_time zone (pos t) ≡ pos day0)
      × (day0 ≤ t)
      × (t < day0 + 86400)
      × (absolute zone (pos day0) % 86400 ≡ 0)
unfolding get_time_stamp_day0_time
get_time_stamp_day0_time_lem zone t z h k =
    let a = absolute_lem zone t z k in
    let start = day_of (absolute zone (pos t)) * one_day_sec in
    let day0 = start + neg_part zone - (unix_to_absolute + pos_part zone) in
    let fits : unix_to_absolute + pos_part zone ≤ start + neg_part zone = omega (arith, a, z, h) in
    let c = absolute_lem zone day0 z (omega (arith, a, z, h, k)) in
    (
      day0,
      ground (arith, less_zone zone start fits, wrap_int-pos day0 (omega (arith, a, z, h, k))),
      omega (arith, a, z, h),
      omega (arith, a, z, h),
      omega (arith, a, c, fits),
    )
