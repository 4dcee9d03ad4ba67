-- ===== src/Calendar.antt =====
-- What the code uses of JavaScript's `Date`: a calendar date whose month and day are set.
use be_lumbung_mesari.Prelude.{
  ℕ, ◌+◌, ◌-◌, ◌/◌, ◌%◌, ◌≤◌, ◌<◌, ◌≡◌, Bool, not, ◌&&◌, ◌||◌, ◌==◌, ltb, leb, if◌then◌else◌, arith,
}

-- `month` counts from January of the year 0, and days from 1.
pub record Date : Type 0 where
  pub month : ℕ
  pub day : ℕ

-- `new Date()`: the calendar date, and the instant as a number.
pub record Clock : Type 0 where
  pub date : Date
  pub instant : ℕ

abbrev pub is_leap : ℕ → Bool
is_leap year = year % 4 == 0 && (not (year % 100 == 0) || year % 400 == 0)

unfoldable pub days_in_month : ℕ → ℕ
days_in_month month =
    let m = month % 12 in
    if m == 1
    then (if is_leap (month / 12) then 29 else 28)
    else if m == 3 || m == 5 || m == 8 || m == 10
    then 30
    else 31

-- `date.setMonth(m)`: a day past the end of the month runs over into the next.
unfoldable pub set_month : ℕ → Date → Date
set_month m date =
    if leb date.day (days_in_month m)
    then record { month = m; day = date.day }
    else record { month = m + 1; day = date.day - days_in_month m }

-- `date.setDate(d)`, for a day that every month has
unfoldable pub set_date : ℕ → Date → Date
set_date d date = record { month = date.month; day = d }

-- `a <= b`
abbrev pub date_leb : Date → Date → Bool
date_leb a b = ltb a.month b.month || (a.month == b.month && leb a.day b.day)

pub days_in_month_bounds : (m : ℕ) → (28 ≤ days_in_month m) × (days_in_month m ≤ 31)
unfolding days_in_month
days_in_month_bounds m = ground arith

-- A month after one that is not full is full.
pub after_short_month : (m : ℕ) → days_in_month m < 31 → days_in_month (m + 1) ≡ 31
unfolding days_in_month
after_short_month m h = ground arith
