-- ===== src/Savings/Periods.antt =====
-- Which savings the lists filter.
use be_lumbung_mesari.Prelude.{
  ℕ, ◌+◌, ◌-◌, ◌*◌, ◌≤◌, ◌<◌, ◌≡◌, zero, suc, sym, ◌∙◌, ap, Bool, ◌==◌, ltb, leb, none, some,
  Bool-cases, inl, inr, String, arith,
}
use be_lumbung_mesari.Exec.{ok, ok-injective}
use be_lumbung_mesari.Calendar.{Date, days_in_month, days_in_month_bounds, date_leb}
use be_lumbung_mesari.Db.{MandatorySavings}
use be_lumbung_mesari.Savings.Listing.{
  SavingsQueryDto, month_names, index_from, or_this_year, month_range, is_between, days_before,
  days_ago, period_date, period_filter, convert_period_to_date_range,
}

-- The days of a month are those of its range.
is_between-month :
    (month : ℕ) (m : MandatorySavings) → is_between (month_range month) m ≡ (m.period == month)
is_between-month month m = let b = days_in_month_bounds month in ground (arith, b)

-- A request for a month keeps exactly the savings of that month, of the requested year or else of
-- the present one.
pub period_filter-month :
    (query : SavingsQueryDto) (today : Date) (lowered : String) (i : ℕ)
    (test : MandatorySavings → Bool)
    → query.lowered ≡ some lowered
    → index_from 0 lowered month_names ≡ some i
    → period_filter query today ≡ ok test
    → (m : MandatorySavings) → test m ≡ (m.period == (or_this_year query.year today * 12 + i))
unfolding period_filter convert_period_to_date_range
period_filter-month query today lowered i test asked known h m =
    let run = rw (period_filter, asked, convert_period_to_date_range, known) at h in
    ap (λ t. t m) (sym (ok-injective run)) ∙ is_between-month _ m

-- A day of the calendar.
abbrev pub IsDay : Date → Type 0
IsDay d = (1 ≤ d.day) × (d.day ≤ days_in_month d.month)

-- How many days there are before a month.
unfoldable pub days_until : ℕ → ℕ
days_until zero = 0
days_until (suc month) = days_until month + days_in_month month

-- The number of a day, counted from the start of the calendar.
abbrev pub day_number : Date → ℕ
day_number d = days_until d.month + d.day

days_before-day_number :
    (month day days : ℕ)
    → 1 ≤ day
    → day ≤ days_in_month month
    → days < days_until month + day
    → IsDay (days_before month day days)
      × (day_number (days_before month day days) + days ≡ days_until month + day)
unfolding days_before days_until
days_before-day_number zero day days p q h = ((omega arith, omega arith), omega arith)
days_before-day_number (suc month) day days p q h = elim (Bool-cases (ltb days day)) [
  | inl t ↦
      let small : days < day = ground (arith, t) in
      rw (days_before, t) ((omega (arith, small), omega (arith, small, q)), omega (arith, small))
  | inr f ↦
      let large : day ≤ days = ground (arith, f) in
      let b = days_in_month_bounds month in
      let (valid, number) =
        days_before-day_number month (days_in_month month) (days - day) (omega (arith, b))
          (omega arith) (omega (arith, large, h)) in
      rw (days_before, f) (valid, omega (arith, number, large))
]

-- The day that setDate makes is a day of the calendar, and lies that many days back.
days_ago-day_number :
    (days : ℕ) (today : Date)
    → IsDay today
    → days < day_number today
    → IsDay (days_ago days today) × (day_number (days_ago days today) + days ≡ day_number today)
unfolding days_ago
days_ago-day_number days today day late =
    days_before-day_number today.month today.day days day.0 day.1 late

days_until_mono : (m n : ℕ) → m ≤ n → days_until m ≤ days_until n
unfolding days_until
days_until_mono m zero h = let e : m ≡ 0 = omega (arith, h) in rw e (omega arith)
days_until_mono m (suc n) h = elim (Bool-cases (leb m n)) [
  | inl t ↦ let rest = days_until_mono m n (ground (arith, t)) in omega (arith, rest)
  | inr f ↦ let e : m ≡ suc n = ground (arith, f, h) in rw e (omega arith)
]

-- The order of days is that of their numbers.
date_leb-day_number :
    (a b : Date) → IsDay a → IsDay b → date_leb a b ≡ leb (day_number a) (day_number b)
unfolding days_until
date_leb-day_number a b p q = elim (Bool-cases (ltb a.month b.month)) [
  | inl t ↦
      let rest = days_until_mono (suc a.month) b.month (ground (arith, t)) in
      let less : day_number a ≤ day_number b = omega (arith, rest, p, q) in ground (arith, t, less)
  | inr f ↦ elim (Bool-cases (a.month == b.month)) [
    | inl t ↦
        let same : a.month ≡ b.month = ground (arith, t) in
        let until : days_until a.month ≡ days_until b.month = ap days_until same in
        ground (arith, f, t, until)
    | inr n ↦
        let rest = days_until_mono (suc b.month) a.month (ground (arith, f, n)) in
        let more : day_number b < day_number a = omega (arith, rest, p, q) in
        ground (arith, f, n, more)
  ]
]

-- A list without a period, from the third month of the calendar on, keeps a row of savings if and
-- only if the first day of its month lies no more than thirty days before today.
pub period_filter-day_number :
    (query : SavingsQueryDto) (today : Date) (test : MandatorySavings → Bool)
    → query.lowered ≡ none
    → IsDay today
    → 2 ≤ today.month
    → period_filter query today ≡ ok test
    → (m : MandatorySavings) → test m ≡ leb (day_number today) (day_number (period_date m) + 30)
unfolding period_filter days_until
period_filter-day_number query today test none_asked day late h m =
    let two = days_until_mono 2 today.month late in
    let january = days_in_month_bounds 0 in
    let february = days_in_month_bounds 1 in
    let enough : 30 < day_number today = omega (arith, two, january, february, day) in
    let run = rw (period_filter, none_asked) at h in
    let kept : test m ≡ date_leb (days_ago 30 today) (period_date m) =
      ap (λ t. t m) (sym (ok-injective run)) in
    let (valid, number) = days_ago-day_number 30 today day enough in
    let b = days_in_month_bounds m.period in
    let first : IsDay (period_date m) = (omega arith, omega (arith, b)) in
    let order = date_leb-day_number (days_ago 30 today) (period_date m) valid first in
    kept ∙ order ∙ ground (arith, number)
