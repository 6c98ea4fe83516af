-- ===== src/Time/Calendar.antt =====
-- `days_since_epoch` counts the days of the Gregorian calendar: one more for each next day.
use carrotos.Base.{
  ℕ, zero, suc, ◌+◌, ◌-◌, ◌*◌, ◌%◌, ◌^◌, ◌<◌, ◌≤◌, ◌≡◌, sym, ap, ◌∙◌, arith, ◌&&◌, Bool, true,
  false, ◌==◌, ltb, inl, inr, Bool-cases, if◌then◌else◌, get_or, List, [], ◌∷◌,
}
use carrotos.Time.{is_leap, year_days, month_days, days_since_epoch}

-- The Gregorian rule: every fourth year, but of the centuries only every fourth.
unfoldable pub leaps : ℕ → Bool
leaps y = if y % 400 == 0 then true else if y % 100 == 0 then false else y % 4 == 0

is_leap-leaps : (y : ℕ) → is_leap y ≡ leaps y
unfolding is_leap leaps
is_leap-leaps y = ground arith

abbrev month_lengths : List ℕ
month_lengths = 31 ∷ 28 ∷ 31 ∷ 30 ∷ 31 ∷ 30 ∷ 31 ∷ 31 ∷ 30 ∷ 31 ∷ 30 ∷ 31 ∷ []

-- The length of a month and of a year.
unfoldable pub month_length : ℕ → ℕ → ℕ
unfolding leaps
month_length year m = get_or month_lengths (m - 1) 0 + (if m == 2 && leaps year then 1 else 0)

year_length : ℕ → ℕ
unfolding leaps
year_length y = if leaps y then 366 else 365

pub record IsDate (year month day : ℕ) : Type 0 where
  pub year_ge : 1970 ≤ year
  pub year_lt : year < 2 ^ 31
  pub month_ge : 1 ≤ month
  pub month_le : month ≤ 12
  pub day_ge : 1 ≤ day
  pub day_le : day ≤ month_length year month

-- The calendar's next day.
pub tomorrow : ℕ → ℕ → ℕ → ℕ × ℕ × ℕ
unfolding month_length
tomorrow year month day =
    if ltb day (month_length year month)
    then (year, month, day + 1)
    else if ltb month 12
    then (year, month + 1, 1)
    else (year + 1, 1, 1)

year_days-suc : (k y days : ℕ) → year_days (suc k) y days ≡ year_days k y days + year_length (y + k)
unfolding year_days year_length
year_days-suc zero y days = let e : y + 0 ≡ y = omega arith in rw (e, is_leap-leaps y)
year_days-suc (suc k) y days =
    let e : y + suc k ≡ y + 1 + k = omega arith in
    rw e (year_days-suc k (y + 1) (days + (if is_leap y then 366 else 365)))

month_days-suc :
    (year k m days : ℕ)
    → month_days year (suc k) m days ≡ month_days year k m days + month_length year (m + k)
unfolding month_days month_length
month_days-suc year zero m days =
    let e : m + 0 ≡ m = omega arith in rw (e, is_leap-leaps year) (ground arith)
month_days-suc year (suc k) m days =
    let e : m + suc k ≡ m + 1 + k = omega arith in rw e (month_days-suc year k (m + 1) _)

year_length-le : (y : ℕ) → year_length y ≤ 366
unfolding year_length
year_length-le y = ground arith

year_days-le : (k y days : ℕ) → year_days k y days ≤ days + k * 366
unfolding year_days
year_days-le zero y days = omega arith
year_days-le (suc k) y days =
    omega (arith, year_days-suc k y days, year_days-le k y days, year_length-le (y + k))

abbrev AllLe : ℕ → List ℕ → Type 0
AllLe n [] = Unit
AllLe n (x ∷ xs) = (x ≤ n) × AllLe n xs

get_or-le : (n : ℕ) (xs : List ℕ) (i : ℕ) → AllLe n xs → get_or xs i 0 ≤ n
get_or-le n [] i h = omega arith
get_or-le n (x ∷ xs) zero h = h.0
get_or-le n (x ∷ xs) (suc i) h = get_or-le n xs i h.1

month_length-le : (year m : ℕ) → month_length year m ≤ 32
unfolding month_length
month_length-le year m = ground (arith, get_or-le 31 month_lengths (m - 1) (omega arith))

month_days-le : (year k m days : ℕ) → month_days year k m days ≤ days + k * 32
unfolding month_days
month_days-le year zero m days = omega arith
month_days-le year (suc k) m days =
    omega (
      arith,
      month_days-suc year k m days,
      month_days-le year k m days,
      month_length-le year (m + k),
    )

-- The twelve months make up the year.
months-year : (year days : ℕ) → month_days year 12 1 days ≡ days + year_length year
unfolding month_days year_length
months-year year days = rw (is_leap-leaps year) (ground arith)

-- The days before a month of a year.
days_before : ℕ → ℕ → ℕ
days_before year month = month_days year (month - 1) 1 (year_days (year - 1970) 1970 0)

-- The day number as a sum, with no wrap.
days_sum :
    (year month day : ℕ)
    → year < 2 ^ 32
    → month ≤ 13
    → 1 ≤ day
    → day ≤ 33
    → days_since_epoch year month day + 1 ≡ days_before year month + day
unfolding days_since_epoch days_before
days_sum year month day y m d d' = omega (
  arith,
  year_days-le (year - 1970) 1970 0,
  month_days-le year (month - 1) 1 (year_days (year - 1970) 1970 0),
)

days_before-next_month :
    (year month : ℕ)
    → 1 ≤ month
    → days_before year (month + 1) ≡ days_before year month + month_length year month
unfolding days_before
days_before-next_month year month h =
    let e : month + 1 - 1 ≡ suc (month - 1) = omega arith in
    let f : 1 + (month - 1) ≡ month = omega arith in
    ap (λ k. month_days year k 1 (year_days (year - 1970) 1970 0)) e
    ∙ month_days-suc year (month - 1) 1 (year_days (year - 1970) 1970 0)
    ∙ ap (λ k. month_days year (month - 1) 1 (year_days (year - 1970) 1970 0) + month_length year k)
        f

days_before-next_year : (year : ℕ) → 1970 ≤ year → days_before (year + 1) 1 ≡ days_before year 13
unfolding days_before month_days
days_before-next_year year h =
    let e : year + 1 - 1970 ≡ suc (year - 1970) = omega arith in
    let f : 1970 + (year - 1970) ≡ year = omega arith in
    ap (λ k. year_days k 1970 0) e
    ∙ year_days-suc (year - 1970) 1970 0
    ∙ ap (λ k. year_days (year - 1970) 1970 0 + year_length k) f
    ∙ sym (months-year year (year_days (year - 1970) 1970 0))

-- From the first of January of 1970 on, and while the year fits an `int`, the next day of the
-- Gregorian calendar has the next number.
pub days_tomorrow :
    {year month day : ℕ}
    → IsDate year month day
    → year + 1 < 2 ^ 31
    → let (y, m, d) = tomorrow year month day in
      days_since_epoch y m d ≡ days_since_epoch year month day + 1
unfolding tomorrow
days_tomorrow {year} {month} {day} d room =
    let short : day ≤ 33 = omega (arith, month_length-le year month, d.day_le) in
    let today = days_sum year month day (omega arith) (omega arith) d.day_ge short in
    elim (Bool-cases (ltb day (month_length year month))) [
      | inl e ↦
          let lt : day < month_length year month = ground arith in
          let same_month =
            days_sum year month (day + 1) (omega arith) (omega arith) (omega arith)
              (omega (arith, month_length-le year month)) in
          rw e (omega arith)
      | inr e ↦
          let last : day ≡ month_length year month = ground arith in
          let next = days_before-next_month year month d.month_ge in
          elim (Bool-cases (ltb month 12)) [
            | inl f ↦
                let first =
                  days_sum year (month + 1) 1 (omega arith) (ground arith) (omega arith)
                    (omega arith) in
                rw (e, f) (omega arith)
            | inr f ↦
                let december : month ≡ 12 = ground arith in
                let first =
                  days_sum (year + 1) 1 1 (omega arith) (omega arith) (omega arith) (omega arith) in
                let over : days_before year (month + 1) ≡ days_before year 13 =
                  ap (λ m. days_before year (m + 1)) december in
                rw (e, f) (omega (arith, days_before-next_year year d.year_ge))
          ]
    ]
