-- ===== src/Time/Tests.antt =====
-- Runs of the clock arithmetic.
use carrotos.Base.{ℕ, ◌+◌, ◌*◌, ◌%◌, ◌^◌, ◌≡◌, ◌≤◌, ◌<◌, ◌+◌, ◌^◌, ◌⊎◌, refl, arith}
use carrotos.Time.{Timeval, subtract_time, days_since_epoch, get_epoch_seconds, rtc_write_datetime}
use carrotos.Time.Compare.{IsNormal, instant}
use carrotos.Time.Sum.{subtract_time_off}
use carrotos.Time.Calendar.{IsDate, month_length, leaps, tomorrow, days_tomorrow}
use carrotos.Time.Clock.{IsClock, get_epoch_seconds-rtc_write_datetime}

abbrev half_past : Timeval
half_past = record { tv_sec = 5; tv_microsec = 700000 }

abbrev early : Timeval
early = record { tv_sec = 3; tv_microsec = 600000 }

abbrev late : Timeval
late = record { tv_sec = 3; tv_microsec = 900000 }

half_past-IsNormal : IsNormal half_past
half_past-IsNormal = record { us_lt = omega arith }

early-IsNormal : IsNormal early
early-IsNormal = record { us_lt = omega arith }

late-IsNormal : IsNormal late
late-IsNormal = record { us_lt = omega arith }

subtract_time_off_example :
    ((900000 ≤ 700000)
      × IsNormal (subtract_time half_past late)
      × (instant (subtract_time half_past late) + instant late ≡ instant half_past))
    ⊎ ((700000 < 900000)
        × (¬ IsNormal (subtract_time half_past late))
        × (instant (subtract_time half_past late) + instant late ≡ instant half_past + 2 ^ 32))
subtract_time_off_example =
    subtract_time_off half_past-IsNormal late-IsNormal (omega arith) (omega arith)

leap_day : days_since_epoch 2024 2 29 ≡ 19782
unfolding days_since_epoch
leap_day = refl

leap_day-IsDate : IsDate 2024 2 29
unfolding month_length leaps
leap_day-IsDate = record {
  year_ge = omega arith;
  year_lt = omega arith;
  month_ge = omega arith;
  month_le = omega arith;
  day_ge = omega arith;
  day_le = omega arith;
}

days_tomorrow_example :
    let (y, m, d) = tomorrow 2024 2 29 in days_since_epoch y m d ≡ days_since_epoch 2024 2 29 + 1
days_tomorrow_example = days_tomorrow leap_day-IsDate (omega arith)

-- A clock in BCD mode.
abbrev cmos_bcd : ℕ → ℕ
cmos_bcd r = 0

leap_day-IsClock : IsClock 2024 2 29 23 59 58
leap_day-IsClock = record {
  year_ge = omega arith;
  year_lt = omega arith;
  mon_lt = omega arith;
  day_lt = omega arith;
  hour_lt = omega arith;
  min_lt = omega arith;
  sec_lt = omega arith;
}

get_epoch_seconds-rtc_write_datetime_example :
    get_epoch_seconds (rtc_write_datetime 2024 2 29 23 59 58 cmos_bcd)
    ≡ (days_since_epoch 2024 2 29 * 86400 + 23 * 3600 + 59 * 60 + 58) % 2 ^ 64
get_epoch_seconds-rtc_write_datetime_example =
    get_epoch_seconds-rtc_write_datetime cmos_bcd leap_day-IsClock (omega arith) refl
