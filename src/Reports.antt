-- ===== src/Reports.antt =====
-- The report of the mandatory savings of a year (src/reports/reports.service.ts), up to its
-- spreadsheet. `by_name` is the order of names in the database and `by_locale` that of JavaScript.
use be_lumbung_mesari.Prelude.{
  ℕ, zero, suc, ◌+◌, ◌/◌, ◌%◌, ◌==◌, ℤ, pos, ◌+ℤ◌, Bool, true, false, ◌&&◌, Option, none, some,
  List, [], ◌∷◌, ◌++◌, String, map, select, find, update_where, length, if◌then◌else◌,
}
use be_lumbung_mesari.Db.{Db, User, MandatorySavings, SavingsStatus}
use be_lumbung_mesari.Savings.Records.{is_active_member}
use be_lumbung_mesari.Savings.Service.{is_settled}
use be_lumbung_mesari.Users.Repository.{has_id, is_found}
use be_lumbung_mesari.Pagination.{PaginationResult, paginate, order_by, process_pages}
pub mod Totals

pub record MemberSavingsData : Type 0 where
  pub user_id : ℕ
  pub fullname : String
  pub monthly_payments : List (Option ℤ)
  pub total : ℤ

abbrev pub batch_size : ℕ
batch_size = 100

-- `getActiveMembersFullname`
abbrev pub active_members : (User → User → Bool) → Db → List User
active_members by_name s = order_by by_name (select is_active_member s.users)

unfoldable pub get_active_members_fullname :
    (User → User → Bool) → Db → ℕ → ℕ → PaginationResult User
get_active_members_fullname by_name s page limit = paginate page limit (active_members by_name s)

-- The paid savings of a year whose user is there, as the join demands.
abbrev pub is_paid_in : ℕ → Db → MandatorySavings → Bool
is_paid_in year s m =
    is_settled m.status && m.period / 12 == year && is_found (find (has_id m.user_id) s.users)

abbrev pub paid_savings :
    (MandatorySavings → MandatorySavings → Bool) → ℕ → Db → List MandatorySavings
paid_savings in_order year s = order_by in_order (select (is_paid_in year s) s.mandatory_savings)

unfoldable pub find_paid_mandatory_savings_by_year :
    (MandatorySavings → MandatorySavings → Bool)
    → ℕ
    → Db
    → ℕ
    → ℕ
    → PaginationResult MandatorySavings
find_paid_mandatory_savings_by_year in_order year s page limit =
    paginate page limit (paid_savings in_order year s)

abbrev pub nothing : ℕ → List (Option ℤ)
nothing zero = []
nothing (suc n) = none ∷ nothing n

abbrev pub blank : User → MemberSavingsData
blank u = record {
  user_id = u.id;
  fullname = u.fullname;
  monthly_payments = nothing 12;
  total = pos 0;
}

abbrev pub is_of : ℕ → MemberSavingsData → Bool
is_of id d = d.user_id == id

-- `memberDataMap.set(member.id, …)`: a key that is there keeps its place.
unfoldable pub add_member : User → List MemberSavingsData → List MemberSavingsData
add_member u ds = elim (find (is_of u.id) ds) [
  | none ↦ ds ++ (blank u ∷ [])
  | some _ ↦ update_where (is_of u.id) (λ _. blank u) ds
]

abbrev pub set_at {ℓ} : {A : Type ℓ} → ℕ → A → List A → List A
set_at i a [] = []
set_at zero a (x ∷ xs) = a ∷ xs
set_at (suc i) a (x ∷ xs) = x ∷ set_at i a xs

abbrev pub set_payment : MandatorySavings → MemberSavingsData → MemberSavingsData
set_payment m d = record d {
  monthly_payments = set_at (m.period % 12) (some m.amount) d.monthly_payments;
  total = d.total +ℤ m.amount;
}

-- A saving of a user who is not in the map is passed over.
unfoldable pub add_saving : MandatorySavings → List MemberSavingsData → List MemberSavingsData
add_saving m ds = update_where (is_of m.user_id) (set_payment m) ds

abbrev pub amount_or_zero : Option ℤ → ℤ
amount_or_zero none = pos 0
amount_or_zero (some a) = a

-- The totals of the months, added member by member.
abbrev pub add_months : List (Option ℤ) → List ℤ → List ℤ
add_months [] ts = ts
add_months (p ∷ ps) [] = []
add_months (p ∷ ps) (t ∷ ts) = (t +ℤ amount_or_zero p) ∷ add_months ps ts

abbrev pub zeros : ℕ → List ℤ
zeros zero = []
zeros (suc n) = pos 0 ∷ zeros n

abbrev pub monthly_totals : List MemberSavingsData → List ℤ
monthly_totals [] = zeros 12
monthly_totals (d ∷ ds) = add_months d.monthly_payments (monthly_totals ds)

abbrev pub grand_total : List MemberSavingsData → ℤ
grand_total [] = pos 0
grand_total (d ∷ ds) = d.total +ℤ grand_total ds

pub record Report : Type 0 where
  pub members : List MemberSavingsData
  pub months : List ℤ
  pub total : ℤ

-- The two loops over pages: one round more than there are rows is enough.
unfoldable pub collect_members : (User → User → Bool) → Db → List MemberSavingsData
unfolding get_active_members_fullname
collect_members by_name s =
    process_pages (suc (length (active_members by_name s)))
      (λ page. get_active_members_fullname by_name s page batch_size) add_member 1 []

unfoldable pub collect_savings :
    (User → User → Bool)
    → (MandatorySavings → MandatorySavings → Bool)
    → ℕ
    → Db
    → List MemberSavingsData
unfolding find_paid_mandatory_savings_by_year collect_members
collect_savings by_name in_order year s =
    process_pages (suc (length (paid_savings in_order year s)))
      (λ page. find_paid_mandatory_savings_by_year in_order year s page batch_size) add_saving 1
      (collect_members by_name s)

unfoldable pub generate_mandatory_savings_report :
    (User → User → Bool)
    → (MandatorySavings → MandatorySavings → Bool)
    → (MemberSavingsData → MemberSavingsData → Bool)
    → ℕ
    → Db
    → Report
unfolding collect_savings
generate_mandatory_savings_report by_name in_order by_locale year s =
    let members = order_by by_locale (collect_savings by_name in_order year s) in
    record { members = members; months = monthly_totals members; total = grand_total members }
