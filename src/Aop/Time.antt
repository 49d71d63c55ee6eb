-- ===== src/Aop/Time.antt =====
-- Days: aop/fn/time.go, with what it uses of Go's package time. The local zone is the seconds that
-- it is ahead of UTC, which do not change with the seasons.
pub mod Months
pub mod SameDay
mod Tests
use greatestworks.Base.{
  Bool, List, [], false, if◌then◌else◌, leb, ltb, not, suc, zero, ℕ, ◌%◌, ◌&&◌, ◌*◌, ◌++◌, ◌-◌, ◌/◌,
  ◌==◌, ◌^◌, ◌||◌, ◌∷◌,
}
use greatestworks.Base.Int.{ltb_ℤ, mod_ℤ, pos, wrap_int, ℤ, ◌+ℤ◌, ◌-ℤ◌}

abbrev pub one_day_sec : ℕ
one_day_sec = 24 * 60 * 60

abbrev pub day_start_hour : ℕ
day_start_hour = 5

-- Go counts seconds, modulo 2 ^ 64, from a year that leaves 1 when divided by 400.
abbrev pub unix_to_absolute : ℕ
unix_to_absolute = 9223372028715321600

unfoldable pub absolute : ℤ → ℤ → ℕ
absolute zone t = mod_ℤ (t +ℤ zone +ℤ pos unix_to_absolute) (2 ^ 64)

abbrev pub hour_of : ℕ → ℕ
hour_of abs = abs % one_day_sec / 3600

abbrev pub day_of : ℕ → ℕ
day_of abs = abs / one_day_sec

abbrev pub is_leap : ℕ → Bool
is_leap year = year % 4 == 0 && (not (year % 100 == 0) || year % 400 == 0)

abbrev pub months : ℕ → List ℕ
months year =
    31 ∷ (if is_leap year then 29 else 28) ∷ 31 ∷ 30 ∷ 31 ∷ 30 ∷ 31 ∷ 31 ∷ 30 ∷ 31 ∷ 30 ∷ 31 ∷ []

-- The lengths of the months of the last `left` years of 400.
unfoldable pub cycle : ℕ → List ℕ
cycle zero = []
cycle (suc left) = months (400 - left) ++ cycle left

-- The day in its month, for a day counted from the first of the months.
unfoldable pub month_day : List ℕ → ℕ → ℕ
month_day [] d = suc d
month_day (m ∷ ms) d = if ltb d m then suc d else month_day ms (d - m)

-- The day that time.Time.Date answers.
unfoldable pub date_day : ℕ → ℕ
date_day abs = month_day (cycle 400) (day_of abs % 146097)

abbrev pub abs_int64 : ℤ → ℤ
abs_int64 n = if ltb_ℤ n (pos 0) then wrap_int (pos 0 -ℤ n) else n

unfoldable pub is_same_day : ℤ → ℤ → ℤ → Bool
is_same_day zone t1 t2 =
    if ltb_ℤ (pos 86400) (abs_int64 (wrap_int (t1 -ℤ t2)))
    then false
    else let date1 = absolute zone t1 in
      let date2 = absolute zone t2 in
      let started1 = leb day_start_hour (hour_of date1) in
      let started2 = leb day_start_hour (hour_of date2) in
      if date_day date1 == date_day date2
      then (started1 && started2) || (not started1 && not started2)
      else (started1 && not started2) || (not started1 && started2)

-- time.Date of the day of a time, at 0 o'clock.
unfoldable pub get_time_stamp_day0_time : ℤ → ℤ → ℤ
get_time_stamp_day0_time zone tm =
    wrap_int (pos (day_of (absolute zone tm) * one_day_sec) -ℤ pos unix_to_absolute -ℤ zone)

-- `now` is the time.
abbrev pub get_day0_time : ℤ → ℤ → ℤ
get_day0_time zone now = get_time_stamp_day0_time zone now
