-- ===== src/Controllers.antt =====
-- The routes of loans, users and savings that write: their guards, and what they catch
-- (src/loans/loans.controller.ts, src/users/users.controller.ts, src/savings/savings.controller.ts).
-- The declarative validation of bodies and the messages are left out.
use be_lumbung_mesari.Prelude.{ℕ, ℤ, Bool, true, false, not, Option, List, [], ◌∷◌, String}
use be_lumbung_mesari.Exec.{
  Error, not_found, bad_request, forbidden, email_failed, missing_row, database, internal, Result,
  ok, err, Exec, with_result, reject_if,
}
use be_lumbung_mesari.Calendar.{Clock}
use be_lumbung_mesari.Db.{Db, Loan, UserRole, UserStatus}
use be_lumbung_mesari.Auth.Tokens.{Libraries, Secrets, UserJwt, jwt_guard, can_activate}
use be_lumbung_mesari.Loans.Application.{CreateLoanDto, create_loan, approve_loan, reject_loan}
use be_lumbung_mesari.Loans.Service.{disburse_loan, settle_installment}
use be_lumbung_mesari.Savings.Service.{settle_mandatory_savings, generate_remaining_year_savings}
use be_lumbung_mesari.Users.Service.{ApprovalResponse, approve_user, reject_user}
pub mod Expenses
pub mod Accounts
pub mod Reads
pub mod Callers
pub mod Privacy

-- A mail that failed is answered with a warning, and the status that the route names.
abbrev pub warned : UserStatus → ℕ → Result ApprovalResponse → Result ApprovalResponse
warned status user_id (err email_failed) = ok (record { status = status; user_id = user_id })
warned status user_id (err e) = err e
warned status user_id (ok answer) = ok answer

-- `if (error instanceof HttpException) throw error`, and an internal error else: only what the
-- database raises is no such exception.
abbrev pub only_http : {A : Type 0} → Result A → Result A
only_http (err (database c)) = err internal
only_http (err missing_row) = err internal
only_http (err e) = err e
only_http (ok a) = ok a

-- Anything but these two errors is answered as an internal one.
abbrev pub unexpected_as_internal : Result (Unit {0}) → Result (Unit {0})
unexpected_as_internal (ok u) = ok u
unexpected_as_internal (err not_found) = err not_found
unexpected_as_internal (err bad_request) = err bad_request
unexpected_as_internal (err e) = err internal

abbrev pub is_active_user : UserStatus → Bool
is_active_user UserStatus.active = true
is_active_user _ = false

abbrev pub catching : {A : Type 0} → (Result A → Result A) → Exec Db A → Exec Db A
catching handle m s = let (answer, t) = m s in (handle answer, t)

-- A request with a bearer token, at the time of the clock.
module _ (libraries : Libraries) (secrets : Secrets) (clock : Clock) (token : libraries.Token) where
  -- `@UseGuards(JwtAuthGuard, RolesGuard)` with `@Roles(…)`, before the handler.
  unfoldable pub guarded : {A : Type 0} → List UserRole → (UserJwt → Exec Db A) → Exec Db A
  unfolding jwt_guard can_activate
  guarded roles handler s =
      with_result (jwt_guard libraries secrets clock.instant s token)
        (λ user. with_result (can_activate roles user) (λ _. handler user)) s

  -- `createLoan`: any active user.
  unfoldable pub create_loan_route : (ℤ → ℤ) → ℕ → CreateLoanDto → Exec Db Loan
  unfolding guarded create_loan
  create_loan_route store admin_fee_rate dto = guarded [] (λ user.
      reject_if (not (is_active_user user.status)) forbidden
        (create_loan store admin_fee_rate clock.date user.id dto))

  unfoldable pub approve_loan_route : ℕ → Option String → Exec Db Unit
  unfolding guarded approve_loan
  approve_loan_route loan_id notes =
      guarded (UserRole.superadministrator ∷ [])
        (λ admin. approve_loan clock.date loan_id notes admin.id)

  unfoldable pub reject_loan_route : ℕ → String → Exec Db Unit
  unfolding guarded reject_loan
  reject_loan_route loan_id reason =
      guarded (UserRole.superadministrator ∷ []) (λ admin. reject_loan clock.date loan_id reason)

  unfoldable pub disburse_loan_route : ℕ → Exec Db Unit
  unfolding guarded disburse_loan
  disburse_loan_route loan_id =
      guarded (UserRole.superadministrator ∷ []) (λ admin. disburse_loan clock loan_id admin.id)

  unfoldable pub settle_installment_route : ℕ → Exec Db Unit
  unfolding guarded settle_installment
  settle_installment_route installment_id =
      guarded (UserRole.administrator ∷ UserRole.superadministrator ∷ [])
        (λ admin. settle_installment clock installment_id admin.id)

  unfoldable pub approve_user_route : Bool → ℕ → Exec Db ApprovalResponse
  unfolding guarded approve_user
  approve_user_route mailed user_id =
      guarded (UserRole.administrator ∷ UserRole.superadministrator ∷ []) (λ admin.
        catching (warned UserStatus.active user_id) (approve_user clock mailed user_id admin.id))

  unfoldable pub reject_user_route : Bool → ℕ → Exec Db ApprovalResponse
  unfolding guarded reject_user
  reject_user_route mailed user_id =
      guarded (UserRole.administrator ∷ UserRole.superadministrator ∷ [])
        (λ admin. catching (warned UserStatus.waiting_deposit user_id) (reject_user mailed user_id))

  unfoldable pub settle_mandatory_savings_route : ℕ → Exec Db Unit
  unfolding guarded settle_mandatory_savings
  settle_mandatory_savings_route savings_id =
      guarded (UserRole.administrator ∷ UserRole.superadministrator ∷ []) (λ admin.
        catching unexpected_as_internal (settle_mandatory_savings clock savings_id admin.id))

  unfoldable pub generate_remaining_year_route : ℤ → Exec Db Unit
  unfolding guarded generate_remaining_year_savings
  generate_remaining_year_route configured =
      guarded (UserRole.administrator ∷ UserRole.superadministrator ∷ [])
        (λ admin s. (ok tt, generate_remaining_year_savings configured clock.date s))
