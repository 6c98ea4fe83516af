-- ===== src/Time.antt =====
-- The clock arithmetic of core/time.h: `struct timeval`, the calendar and the real-time clock.
-- The machine's ports are a parameter: `cmos` is what `cmos_read` returns for a register.
pub mod Compare
pub mod Sum
pub mod Calendar
pub mod Clock
mod Tests
use carrotos.Base.{
  ℕ, zero, suc, ◌+◌, ◌-◌, ◌*◌, ◌/◌, ◌%◌, ◌^◌, Bool, true, false, ◌&&◌, ◌||◌, not, List, [], ◌∷◌,
  ◌==◌, ltb, leb, if◌then◌else◌, get_or, bit_and, bit_or,
}

-- `tv_sec` has 64 bits and `tv_microsec` 32; `pad` is never read.
pub record Timeval : Type 0 where
  pub tv_sec : ℕ
  pub tv_microsec : ℕ

pub record Timespec : Type 0 where
  pub tv_sec : ℕ
  pub tv_nanosec : ℕ

abbrev pub million : ℕ
million = 1000000

unfoldable pub timespec_to_timeval : Timespec → Timeval
timespec_to_timeval ts = record {
  tv_sec = ts.tv_sec;
  tv_microsec = (ts.tv_nanosec / 1000) % 2 ^ 32;
}

unfoldable pub later : Timeval → Timeval → Bool
later a b =
    if ltb b.tv_sec a.tv_sec
    then true
    else if ltb a.tv_sec b.tv_sec
    then false
    else ltb b.tv_microsec a.tv_microsec

-- `_later`
unfoldable pub later_or_same : Timeval → Timeval → Bool
later_or_same a b =
    if ltb b.tv_sec a.tv_sec
    then true
    else if ltb a.tv_sec b.tv_sec
    then false
    else leb b.tv_microsec a.tv_microsec

unfoldable pub earlier : Timeval → Timeval → Bool
earlier a b =
    if ltb b.tv_sec a.tv_sec
    then false
    else if ltb a.tv_sec b.tv_sec
    then true
    else ltb a.tv_microsec b.tv_microsec

-- `_earlier`
unfoldable pub earlier_or_same : Timeval → Timeval → Bool
earlier_or_same a b =
    if ltb b.tv_sec a.tv_sec
    then false
    else if ltb a.tv_sec b.tv_sec
    then true
    else leb a.tv_microsec b.tv_microsec

-- `return a.tv_sec = b.tv_sec && a.tv_microsec == b.tv_microsec;` assigns: what is assigned, and
-- then returned, is the value of the conjunction.
unfoldable pub same_time : Timeval → Timeval → Bool
same_time a b = not (b.tv_sec == 0) && a.tv_microsec == b.tv_microsec

-- The microseconds add up in 32 bits, the seconds in 64.
unfoldable pub add_time : Timeval → Timeval → Timeval
add_time a b =
    let milisec_total = (a.tv_microsec + b.tv_microsec) % 2 ^ 32 in
    let sec = (a.tv_sec + b.tv_sec) % 2 ^ 64 in
    record {
      tv_sec = if milisec_total / million == 0 then sec else (sec + 1) % 2 ^ 64;
      tv_microsec = milisec_total % million;
    }

-- `a.tv_microsec - b.tv_microsec`, a difference of two `uint32_t`, widened to the 64 bits of an
-- `int64_t`.
pub milisec_subtracted : Timeval → Timeval → ℕ
milisec_subtracted a b = (a.tv_microsec + 2 ^ 32 - b.tv_microsec) % 2 ^ 32

-- An `int64_t` is below 0 where its highest bit is set.
pub is_negative : ℕ → Bool
is_negative n = leb (2 ^ 63) n

unfoldable pub subtract_time : Timeval → Timeval → Timeval
unfolding earlier milisec_subtracted is_negative
subtract_time a b =
    let seconds = (a.tv_sec + 2 ^ 64 - b.tv_sec) % 2 ^ 64 in
    let difference = milisec_subtracted a b in
    if earlier a b
    then record { tv_sec = 0; tv_microsec = 0 }
    else if is_negative difference
    then record {
      tv_sec = (seconds + 2 ^ 64 - 1) % 2 ^ 64;
      tv_microsec = (million + difference) % 2 ^ 64 % 2 ^ 32;
    }
    else record { tv_sec = seconds; tv_microsec = difference % 2 ^ 32 }

-- A count of microseconds as a time.
abbrev pub of_us : ℕ → Timeval
of_us us = record { tv_sec = us / million; tv_microsec = us % million }

unfoldable pub add_time_us : Timeval → ℕ → Timeval
unfolding add_time
add_time_us a add_us = add_time a (of_us add_us)

unfoldable pub subtract_time_us : Timeval → ℕ → Timeval
unfolding subtract_time
subtract_time_us a sub_us = subtract_time a (of_us sub_us)

-- The calendar, for the non-negative years, months and days of the clock.
unfoldable pub is_leap : ℕ → Bool
is_leap year = year % 4 == 0 && (not (year % 100 == 0) || year % 400 == 0)

abbrev pub days_in_month : List ℕ
days_in_month = 31 ∷ 28 ∷ 31 ∷ 30 ∷ 31 ∷ 30 ∷ 31 ∷ 31 ∷ 30 ∷ 31 ∷ 30 ∷ 31 ∷ []

-- `for (int y = 1970; y < year; y++)`, with the rounds that are left.
pub year_days : ℕ → ℕ → ℕ → ℕ
unfolding is_leap
year_days zero y days = days
year_days (suc k) y days = year_days k (y + 1) (days + (if is_leap y then 366 else 365))

-- `for (int m = 1; m < month; m++)`
pub month_days : ℕ → ℕ → ℕ → ℕ → ℕ
unfolding is_leap
month_days year zero m days = days
month_days year (suc k) m days =
    month_days year k (m + 1)
      (days + get_or days_in_month (m - 1) 0 + (if m == 2 && is_leap year then 1 else 0))

-- At a day of 0 the `int` -1 is added to the unsigned count.
unfoldable pub days_since_epoch : ℕ → ℕ → ℕ → ℕ
unfolding year_days month_days
days_since_epoch year month day =
    (month_days year (month - 1) 1 (year_days (year - 1970) 1970 0) + (2 ^ 64 + day - 1)) % 2 ^ 64

unfoldable pub bcd_to_bin : ℕ → ℕ
bcd_to_bin val = bit_and val 0x0F + val / 2 ^ 4 * 10

unfoldable pub bin_to_bcd : ℕ → ℕ
bin_to_bcd val = bit_or (val / 10 * 2 ^ 4) (val % 10)

-- What the registers say once the update flag is clear (the wait for it is not modelled).
unfoldable pub get_epoch_seconds : (ℕ → ℕ) → ℕ
get_epoch_seconds cmos =
    let binary = not (bit_and (cmos 0x0B) 0x04 == 0) in
    let field = λ (r : ℕ). if binary then cmos r else bcd_to_bin (cmos r) in
    let cent : ℕ = if cmos 0x32 == 0 then 20 else bcd_to_bin (cmos 0x32) in
    let full_year = cent * 100 + field 0x09 in
    let days = days_since_epoch full_year (field 0x08) (field 0x07) in
    (days * 86400 + field 0x04 * 3600 + field 0x02 * 60 + field 0x00) % 2 ^ 64

-- A write to one register.
abbrev pub put : (ℕ → ℕ) → ℕ → ℕ → ℕ → ℕ
put cmos r v q = if r == q then v else cmos q

-- Register B is written twice, first with the bit that stops the updates, and last without it.
unfoldable pub rtc_write_datetime : (year mon day hour min sec : ℕ) → (ℕ → ℕ) → ℕ → ℕ
rtc_write_datetime year mon day hour min sec cmos =
    let reg_b = cmos 0x0B in
    let y2 = year % 100 in
    let code = λ (v : ℕ). if bit_and reg_b 0x04 == 0 then bin_to_bcd v else v in
    let c0 = put cmos 0x0B (bit_or reg_b 0x80) in
    let c1 = put (put (put c0 0x00 (code sec)) 0x02 (code min)) 0x04 (code hour) in
    let c2 = put (put (put c1 0x07 (code day)) 0x08 (code mon)) 0x09 (code y2) in
    put c2 0x0B (bit_and reg_b 0x7F)
