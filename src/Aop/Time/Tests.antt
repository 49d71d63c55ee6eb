-- ===== src/Aop/Time/Tests.antt =====
-- Tests of the days, and their theorems at concrete times.
use greatestworks.Aop.Time.{
  absolute, cycle, date_day, get_time_stamp_day0_time, is_same_day, month_day,
}
use greatestworks.Aop.Time.SameDay.{game_day, get_time_stamp_day0_time_lem, is_same_day_lem}
use greatestworks.Base.{arith, false, refl, true, ℕ, ◌%◌, ◌+◌, ◌-◌, ◌<◌, ◌==◌, ◌≡◌, ◌≤◌}
use greatestworks.Base.Int.{pos, wrap, wrap_int, ℤ, ◌+ℤ◌, ◌-ℤ◌}

-- 8 hours ahead of UTC.
abbrev china : ℤ
china = pos 28800

-- 1 March 2024, 4:00 there, after 29 February.
abbrev march_first : ℕ
march_first = 1709236800

first_of_march : date_day (absolute china (pos march_first)) ≡ 1
unfolding date_day absolute month_day cycle ◌+ℤ◌
first_of_march = refl

leap_day : date_day (absolute china (pos (march_first - 86400))) ≡ 29
unfolding date_day absolute month_day cycle ◌+ℤ◌
leap_day = refl

-- At 4:00 the day of the game is the day before; at 5:00 it is not.
day_before : is_same_day china (pos march_first) (pos (march_first - 43200)) ≡ true
unfolding is_same_day date_day absolute month_day cycle ◌+ℤ◌ ◌-ℤ◌ wrap_int wrap
day_before = refl

next_day : is_same_day china (pos (march_first + 3600)) (pos march_first) ≡ false
unfolding is_same_day date_day absolute month_day cycle ◌+ℤ◌ ◌-ℤ◌ wrap_int wrap
next_day = refl

is_same_day_lem_example :
    is_same_day china (pos march_first) (pos 1709200000)
    ≡ (game_day china (pos march_first) == game_day china (pos 1709200000))
is_same_day_lem_example =
    is_same_day_lem china march_first 1709200000 (omega arith) (omega arith) (omega arith)

get_time_stamp_day0_time_lem_example :
    (day0 : ℕ) × (get_time_stamp_day0_time china (pos march_first) ≡ pos day0)
    × (day0 ≤ march_first)
    × (march_first < day0 + 86400)
    × (absolute china (pos day0) % 86400 ≡ 0)
get_time_stamp_day0_time_lem_example =
    get_time_stamp_day0_time_lem china march_first (omega arith) (omega arith) (omega arith)
