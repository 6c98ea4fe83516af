-- ===== src/Time/Clock.antt =====
-- Setting the real-time clock and reading it back.
use carrotos.Base.{
  ℕ, ◌+◌, ◌*◌, ◌%◌, ◌^◌, ◌<◌, ◌≤◌, ◌≡◌, refl, arith, ◌==◌, Bool-cases, inl, inr, bit_and,
}
use carrotos.Base.Table.{same_values, agree_below}
use carrotos.Time.{bcd_to_bin, bin_to_bcd, days_since_epoch, get_epoch_seconds, rtc_write_datetime}

-- Two decimal digits survive the coding.
pub bcd_to_bin-bin_to_bcd : (v : ℕ) → v < 100 → bcd_to_bin (bin_to_bcd v) ≡ v
unfolding bcd_to_bin bin_to_bcd same_values
bcd_to_bin-bin_to_bcd = agree_below 100 (λ v. bcd_to_bin (bin_to_bcd v)) (λ v. v) refl

-- Clearing the top bit of register B leaves the mode bit.
mode_kept : (r : ℕ) → r < 256 → bit_and (bit_and r 0x7F) 0x04 ≡ bit_and r 0x04
unfolding same_values
mode_kept = agree_below 256 (λ r. bit_and (bit_and r 0x7F) 0x04) (λ r. bit_and r 0x04) refl

-- A date and time of this century whose fields the clock can hold.
pub record IsClock (year mon day hour min sec : ℕ) : Type 0 where
  pub year_ge : 2000 ≤ year
  pub year_lt : year < 2100
  pub mon_lt : mon < 100
  pub day_lt : day < 100
  pub hour_lt : hour < 100
  pub min_lt : min < 100
  pub sec_lt : sec < 100

-- What `rtc_write_datetime` sets, `get_epoch_seconds` reads back as the seconds since 1970, in
-- binary and in BCD mode, for a date of this century on a clock whose century register is 0 and
-- whose register B is a byte.
pub get_epoch_seconds-rtc_write_datetime :
    {year mon day hour min sec : ℕ} (cmos : ℕ → ℕ)
    → IsClock year mon day hour min sec
    → cmos 0x0B < 256
    → cmos 0x32 ≡ 0
    → get_epoch_seconds (rtc_write_datetime year mon day hour min sec cmos)
      ≡ (days_since_epoch year mon day * 86400 + hour * 3600 + min * 60 + sec) % 2 ^ 64
unfolding get_epoch_seconds rtc_write_datetime
get_epoch_seconds-rtc_write_datetime {year} {mon} {day} {hour} {min} {sec} cmos v reg cent =
    let bcd = bcd_to_bin-bin_to_bcd in
    let whole : 20 * 100 + year % 100 ≡ year = omega arith in
    elim (Bool-cases (bit_and (cmos 0x0B) 0x04 == 0)) [
      | inl e ↦ rw (
        cent,
        mode_kept (cmos 0x0B) reg,
        e,
        bcd sec v.sec_lt,
        bcd min v.min_lt,
        bcd hour v.hour_lt,
        bcd day v.day_lt,
        bcd mon v.mon_lt,
        bcd (year % 100) (omega arith),
        whole,
      )
      | inr e ↦ rw (cent, mode_kept (cmos 0x0B) reg, e, whole)
    ]
