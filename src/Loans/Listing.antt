-- ===== src/Loans/Listing.antt =====
-- The lists of loans (src/loans/loans.repository.ts, src/loans/loans.service.ts). `ilike` is
-- PostgreSQL's test for a text inside another and `before` the order of the request.
use be_lumbung_mesari.Prelude.{
  ℕ, ◌==◌, Bool, true, false, ◌&&◌, Option, none, some, List, [], ◌∷◌, String, select, find,
}
use be_lumbung_mesari.Db.{Db, User, Loan, LoanStatus}
use be_lumbung_mesari.Pagination.{PaginationResult, order_by, paginate, limit_rows}
use be_lumbung_mesari.Users.Repository.{has_id}
use be_lumbung_mesari.Users.Listing.{is_searched}
use be_lumbung_mesari.Loans.Payments.{find_loan_period}
use be_lumbung_mesari.Loans.Repository.{LoanTable, join_period}

pub record LoansQueryDto : Type 0 where
  pub page : ℕ
  pub limit : ℕ
  pub status : Option LoanStatus
  pub search : Option String

-- A loan with the name of its user and its period.
pub record LoanWithUser : Type 0 where
  pub row : LoanTable
  pub user : User

-- Both joins: a loan whose user or period is not there is left out.
abbrev pub joined : Option LoanTable → Option User → List LoanWithUser → List LoanWithUser
joined (some row) (some user) rest = record { row = row; user = user } ∷ rest
joined (some row) none rest = rest
joined none user rest = rest

abbrev pub with_user_and_period : Db → List Loan → List LoanWithUser
with_user_and_period s [] = []
with_user_and_period s (l ∷ ls) =
    joined (join_period l (find_loan_period l.loan_period_id s)) (find (has_id l.user_id) s.users)
      (with_user_and_period s ls)

abbrev pub same_loan_status : LoanStatus → LoanStatus → Bool
same_loan_status LoanStatus.pending LoanStatus.pending = true
same_loan_status LoanStatus.approved LoanStatus.approved = true
same_loan_status LoanStatus.rejected LoanStatus.rejected = true
same_loan_status LoanStatus.active LoanStatus.active = true
same_loan_status LoanStatus.completed LoanStatus.completed = true
same_loan_status _ _ = false

abbrev pub is_in_status : Option LoanStatus → Loan → Bool
is_in_status none l = true
is_in_status (some st) l = same_loan_status l.status st

abbrev pub is_of_user : Option ℕ → Loan → Bool
is_of_user none l = true
is_of_user (some id) l = l.user_id == id

module _ (ilike : String → String → Bool) (before : LoanWithUser → LoanWithUser → Bool) where
  abbrev pub is_listed_loan : LoansQueryDto → Option ℕ → LoanWithUser → Bool
  is_listed_loan query user_id r =
      is_in_status query.status r.row.loan
      && (is_of_user user_id r.row.loan && is_searched ilike query.search r.user)

  unfoldable pub find_all_loans : LoansQueryDto → Option ℕ → Db → PaginationResult LoanWithUser
  find_all_loans query user_id s =
      paginate query.page query.limit
        (order_by before (select (is_listed_loan query user_id) (with_user_and_period s s.loans)))

-- `findUserLoans`: the three newest loans; the newest stands first in the table.
abbrev pub with_period : Db → List Loan → List LoanTable
with_period s [] = []
with_period s (l ∷ ls) =
    let rest = with_period s ls in
    elim (join_period l (find_loan_period l.loan_period_id s)) [ none ↦ rest | some r ↦ r ∷ rest ]

unfoldable pub find_user_loans : ℕ → Db → List LoanTable
find_user_loans user_id s =
    limit_rows 3 (with_period s (select (λ l. l.user_id == user_id) s.loans))
