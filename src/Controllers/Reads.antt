-- ===== src/Controllers/Reads.antt =====
-- The routes that read what belongs to one member, a loan, its installments and mandatory savings,
-- and the lists for administrators (src/loans/loans.controller.ts, src/users/users.controller.ts,
-- src/savings/savings.controller.ts, src/reports/reports.controller.ts). What the routes rename and
-- convert in their answers, and the spreadsheet, are left out; the orders of the queries and `ilike`
-- are arguments.
use be_lumbung_mesari.Prelude.{ℕ, Bool, true, not, ◌==◌, List, [], ◌∷◌, none, String}
use be_lumbung_mesari.Exec.{
  not_found, bad_request, forbidden, internal, Result, ok, err, Exec, reject_if,
}
use be_lumbung_mesari.Calendar.{Clock}
use be_lumbung_mesari.Db.{Db, Installment, MandatorySavings, User, UserRole}
use be_lumbung_mesari.Pagination.{PaginationResult}
use be_lumbung_mesari.Auth.Tokens.{Libraries, Secrets}
use be_lumbung_mesari.Loans.Repository.{LoanTable}
use be_lumbung_mesari.Loans.Application.{find_loan_by_id, find_installments_by_loan}
use be_lumbung_mesari.Loans.Listing.{LoansQueryDto, LoanWithUser, find_all_loans}
use be_lumbung_mesari.Users.Listing.{ListUsersQuery, UserResponse, find_all_users}
use be_lumbung_mesari.Reports.{MemberSavingsData, Report, generate_mandatory_savings_report}
use be_lumbung_mesari.Savings.Listing.{
  SavingsQueryDto, MandatorySavingsWithUser, find_all_mandatory_savings,
  find_user_mandatory_savings,
}
use be_lumbung_mesari.Controllers.{catching, guarded}

-- A method that only reads.
abbrev pub reading : {A : Type 0} → (Db → Result A) → Exec Db A
reading f s = (f s, s)

-- `isAdmin || isOwnRecord`
abbrev pub may_read : UserRole → ℕ → ℕ → Bool
may_read UserRole.administrator id user_id = true
may_read UserRole.superadministrator id user_id = true
may_read UserRole.member id user_id = id == user_id

-- Anything but these errors is answered as an internal one.
abbrev pub expected_or_internal : {A : Type 0} → Result A → Result A
expected_or_internal (ok a) = ok a
expected_or_internal (err forbidden) = err forbidden
expected_or_internal (err not_found) = err not_found
expected_or_internal (err bad_request) = err bad_request
expected_or_internal (err e) = err internal

-- `if (error instanceof BadRequestException) throw error`, and an internal error else.
abbrev pub bad_request_or_internal : {A : Type 0} → Result A → Result A
bad_request_or_internal (ok a) = ok a
bad_request_or_internal (err bad_request) = err bad_request
bad_request_or_internal (err e) = err internal

-- `@Roles(UserRole.ADMIN, UserRole.SUPERADMIN)`
abbrev pub staff_roles : List UserRole
staff_roles = UserRole.administrator ∷ UserRole.superadministrator ∷ []

module _ (libraries : Libraries) (secrets : Secrets) (clock : Clock) (token : libraries.Token) where
  -- `findOne`
  unfoldable pub find_loan_route : ℕ → Exec Db LoanTable
  unfolding guarded find_loan_by_id
  find_loan_route loan_id =
      guarded libraries secrets clock token [] (λ user. reading (find_loan_by_id loan_id user))

  unfoldable pub find_installments_route : ℕ → Exec Db (List Installment)
  unfolding guarded find_installments_by_loan
  find_installments_route loan_id =
      guarded libraries secrets clock token []
        (λ user. reading (find_installments_by_loan loan_id user))

  unfoldable pub find_user_savings_route :
      (MandatorySavingsWithUser → MandatorySavingsWithUser → Bool)
      → ℕ
      → SavingsQueryDto
      → Exec Db (PaginationResult MandatorySavingsWithUser)
  unfolding guarded find_user_mandatory_savings
  find_user_savings_route before user_id query = guarded libraries secrets clock token [] (λ user.
      catching expected_or_internal (
        reject_if (not (may_read user.role user.id user_id)) forbidden
          (reading (find_user_mandatory_savings before user_id query clock.date))))

  unfoldable pub find_all_loans_route :
      (String → String → Bool)
      → (LoanWithUser → LoanWithUser → Bool)
      → LoansQueryDto
      → Exec Db (PaginationResult LoanWithUser)
  unfolding guarded find_all_loans
  find_all_loans_route ilike before query =
      guarded libraries secrets clock token staff_roles
        (λ _. reading (λ s. ok (find_all_loans ilike before query none s)))

  unfoldable pub find_all_users_route :
      (String → String → Bool)
      → (User → User → Bool)
      → ListUsersQuery
      → Exec Db (PaginationResult UserResponse)
  unfolding guarded find_all_users
  find_all_users_route ilike before query =
      guarded libraries secrets clock token staff_roles
        (λ _. reading (λ s. ok (find_all_users ilike before query s)))

  unfoldable pub find_all_savings_route :
      (MandatorySavingsWithUser → MandatorySavingsWithUser → Bool)
      → SavingsQueryDto
      → Exec Db (PaginationResult MandatorySavingsWithUser)
  unfolding guarded find_all_mandatory_savings
  find_all_savings_route before query = guarded libraries secrets clock token staff_roles (λ _.
      catching bad_request_or_internal
        (reading (find_all_mandatory_savings before query clock.date)))

  unfoldable pub report_route :
      (User → User → Bool)
      → (MandatorySavings → MandatorySavings → Bool)
      → (MemberSavingsData → MemberSavingsData → Bool)
      → ℕ
      → Exec Db Report
  unfolding guarded generate_mandatory_savings_report
  report_route by_name in_order by_locale year =
      guarded libraries secrets clock token staff_roles (λ _.
        reading (λ s. ok (generate_mandatory_savings_report by_name in_order by_locale year s)))
