-- ===== src/Savings/Listing.antt =====
-- The lists of mandatory savings (src/savings/savings.service.ts and
-- src/savings/mandatory-savings.repository.ts). A period is the first day of its month. `lowered`
-- is the requested month in lower case, and `before` the order that the request names.
use be_lumbung_mesari.Prelude.{
  ℕ, zero, suc, ◌+◌, ◌-◌, ◌*◌, ◌/◌, ltb, ◌==◌, Bool, true, false, ◌&&◌, str_eq, Option, none, some,
  List, [], ◌∷◌, String, select, find, if◌then◌else◌,
}
use be_lumbung_mesari.Exec.{Result, ok, err, bad_request, internal}
use be_lumbung_mesari.Calendar.{Date, days_in_month, date_leb}
use be_lumbung_mesari.Db.{Db, User, MandatorySavings}
use be_lumbung_mesari.Pagination.{PaginationResult, order_by, paginate}
use be_lumbung_mesari.Users.Repository.{has_id}

pub record SavingsQueryDto : Type 0 where
  pub lowered : Option String
  pub year : Option ℕ
  pub page : Option ℕ
  pub limit : Option ℕ

abbrev pub month_names : List String
month_names =
    "january" ∷ "february" ∷ "march" ∷ "april" ∷ "may" ∷ "june" ∷ "july" ∷ "august" ∷ "september"
    ∷ "october" ∷ "november" ∷ "december" ∷ []

-- `names.indexOf(name)`, from a first index
abbrev pub index_from : ℕ → String → List String → Option ℕ
index_from i name [] = none
index_from i name (n ∷ ns) =
    let rest = index_from (i + 1) name ns in if str_eq n name then some i else rest

pub record DateRange : Type 0 where
  pub start_date : Date
  pub end_date : Date

abbrev pub or_this_year : Option ℕ → Date → ℕ
or_this_year none today = today.month / 12
or_this_year (some zero) today = today.month / 12
or_this_year (some (suc y)) today = suc y

-- From the first to the last day of the month.
abbrev pub month_range : ℕ → DateRange
month_range month = record {
  start_date = record { month = month; day = 1 };
  end_date = record { month = month; day = days_in_month month };
}

unfoldable pub convert_period_to_date_range : String → Option ℕ → Date → Result DateRange
convert_period_to_date_range lowered year today = elim (index_from 0 lowered month_names) [
  | none ↦ err internal
  | some i ↦ ok (month_range (or_this_year year today * 12 + i))
]

-- The day that many days before a day of a month: of this month, or as long before the end of the
-- month before as is left.
unfoldable pub days_before : ℕ → ℕ → ℕ → Date
days_before zero day days = record { month = 0; day = day - days }
days_before (suc month) day days = elim (ltb days day) [
  | true ↦ record { month = suc month; day = day - days }
  | false ↦ days_before month (days_in_month month) (days - day)
]

-- `setDate(getDate() - days)`: a day before the first of a month is one of the months before.
unfoldable pub days_ago : ℕ → Date → Date
unfolding days_before
days_ago days today = days_before today.month today.day days

abbrev pub period_date : MandatorySavings → Date
period_date m = record { month = m.period; day = 1 }

abbrev pub is_between : DateRange → MandatorySavings → Bool
is_between range m =
    date_leb range.start_date (period_date m) && date_leb (period_date m) range.end_date

-- The filter on the period: the month that is asked for, or the last 30 days.
unfoldable pub period_filter : SavingsQueryDto → Date → Result (MandatorySavings → Bool)
unfolding convert_period_to_date_range days_ago
period_filter query today = elim query.lowered [
  | none ↦ ok (λ m. date_leb (days_ago 30 today) (period_date m))
  | some lowered ↦ elim (convert_period_to_date_range lowered query.year today) [
    | err e ↦ err e
    | ok range ↦ ok (is_between range)
  ]
]

-- A row of savings with its user, and with the user who processed it.
pub record MandatorySavingsWithUser : Type 0 where
  pub savings : MandatorySavings
  pub user : User
  pub processed_by_user : Option User

abbrev pub find_processor : Option ℕ → Db → Option User
find_processor none s = none
find_processor (some id) s = find (has_id id) s.users

-- The join: a row whose user is not there is left out.
abbrev pub with_users : Db → List MandatorySavings → List MandatorySavingsWithUser
with_users s [] = []
with_users s (m ∷ ms) =
    let rest = with_users s ms in
    elim (find (has_id m.user_id) s.users) [
      | none ↦ rest
      | some u ↦
          record { savings = m; user = u; processed_by_user = find_processor m.processed_by s }
          ∷ rest
    ]

abbrev pub or_number : ℕ → Option ℕ → ℕ
or_number d none = d
or_number d (some n) = n

abbrev pub page_of :
    SavingsQueryDto → List MandatorySavingsWithUser → PaginationResult MandatorySavingsWithUser
page_of query rows = paginate (or_number 1 query.page) (or_number 10 query.limit) rows

-- What the service refuses before it asks the repository.
unfoldable pub validate_period_parameter : SavingsQueryDto → Result (Unit {0})
validate_period_parameter query = elim query.lowered [
  | none ↦ ok tt
  | some lowered ↦ elim (index_from 0 lowered month_names) [
    | none ↦ err bad_request
    | some _ ↦ ok tt
  ]
]

module _ (before : MandatorySavingsWithUser → MandatorySavingsWithUser → Bool) where
  unfoldable pub find_all_with_users :
      SavingsQueryDto → Date → Db → Result (PaginationResult MandatorySavingsWithUser)
  unfolding period_filter
  find_all_with_users query today s = elim (period_filter query today) [
    | err e ↦ err e
    | ok test ↦
        ok (page_of query (order_by before (with_users s (select test s.mandatory_savings))))
  ]

  unfoldable pub find_by_user_id_with_pagination :
      ℕ → SavingsQueryDto → Date → Db → Result (PaginationResult MandatorySavingsWithUser)
  unfolding period_filter
  find_by_user_id_with_pagination user_id query today s = elim (period_filter query today) [
    | err e ↦ err e
    | ok test ↦ ok (
        page_of query (
          order_by before
            (with_users s (select (λ m. m.user_id == user_id && test m) s.mandatory_savings))))
  ]

  unfoldable pub find_all_mandatory_savings :
      SavingsQueryDto → Date → Db → Result (PaginationResult MandatorySavingsWithUser)
  unfolding find_all_with_users validate_period_parameter
  find_all_mandatory_savings query today s = elim (validate_period_parameter query) [
    | err e ↦ err e
    | ok _ ↦ find_all_with_users query today s
  ]

  unfoldable pub find_user_mandatory_savings :
      ℕ → SavingsQueryDto → Date → Db → Result (PaginationResult MandatorySavingsWithUser)
  unfolding find_by_user_id_with_pagination validate_period_parameter
  find_user_mandatory_savings user_id query today s = elim (validate_period_parameter query) [
    | err e ↦ err e
    | ok _ ↦ find_by_user_id_with_pagination user_id query today s
  ]
