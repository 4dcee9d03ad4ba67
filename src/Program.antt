-- ===== src/Program.antt =====
-- The program as a whole: the requests that write, the jobs, and runs of them. A step is one request
-- or one job, whole.
use be_lumbung_mesari.Prelude.{ℕ, ℤ, Bool, Option, List, [], ◌∷◌, String}
use be_lumbung_mesari.Exec.{Exec}
use be_lumbung_mesari.Calendar.{Clock}
use be_lumbung_mesari.Db.{Db, UserRole}
use be_lumbung_mesari.Auth.Tokens.{Libraries, Secrets}
use be_lumbung_mesari.Auth.Service.{Call, RegisterDto}
use be_lumbung_mesari.Expenses.{CreateExpenseDto, UpdateExpenseDto}
use be_lumbung_mesari.Loans.Application.{CreateLoanDto}
use be_lumbung_mesari.Schedulers.{check_overdue_installments, create_yearly_savings}
use be_lumbung_mesari.Controllers.{
  create_loan_route, approve_loan_route, reject_loan_route, disburse_loan_route,
  settle_installment_route, approve_user_route, reject_user_route, settle_mandatory_savings_route,
  generate_remaining_year_route,
}
use be_lumbung_mesari.Controllers.Expenses.{
  create_expense_route, update_expense_route, delete_expense_route,
}
use be_lumbung_mesari.Controllers.Accounts.{
  login_route, register_route, verify_otp_route, resend_otp_route, request_password_reset_route,
  confirm_password_reset_route,
}
pub mod Roles
pub mod Kept
pub mod Well
pub mod Steps
pub mod Runs
pub mod Progress
pub mod Counted
pub mod Limit
pub mod Keys
pub mod Life
pub mod OfLoans
pub mod Borrowing
pub mod Spending
pub mod Membership
pub mod People
pub mod Money

-- What the program is started with. `store` is how the database rounds to four decimals.
pub record Env : Type 1 where
  pub libraries : Libraries
  pub secrets : Secrets
  pub store : ℤ → ℤ
  pub admin_fee_rate : ℕ
  pub principal_savings_amount : ℤ
  pub mandatory_savings_amount : ℤ

-- Requests with a bearer token; a flag says whether the mail is taken.
pub data Request : Type 0 where
  creates_loan : CreateLoanDto → Request
  approves_loan : ℕ → Option String → Request
  rejects_loan : ℕ → String → Request
  disburses_loan : ℕ → Request
  settles_installment : ℕ → Request
  approves_user : Bool → ℕ → Request
  rejects_user : Bool → ℕ → Request
  settles_savings : ℕ → Request
  generates_savings : Request
  creates_expense : CreateExpenseDto → Request
  updates_expense : ℕ → UpdateExpenseDto → Request
  deletes_expense : ℕ → Request
  verifies_otp : Call → String → Request
  resends_otp : Call → Request

-- Requests that are open to all.
pub data Visit : Type 0 where
  logs_in : String → String → Visit
  registers : RegisterDto → Visit
  requests_reset : String → Visit
  confirms_reset : String → String → String → Visit

-- The flag says whether the run gets its advisory lock.
pub data Job : Type 0 where
  checks_overdue_installments : Bool → Job
  creates_yearly_savings : Bool → Job

module _ (env : Env) where
  module _ (clock : Clock) (token : env.libraries.Token) where
    -- The state after a request.
    unfoldable pub serve : Request → Db → Db
    serve (creates_loan dto) s =
        (create_loan_route env.libraries env.secrets clock token env.store env.admin_fee_rate dto
          s).1
    serve (approves_loan id notes) s =
        (approve_loan_route env.libraries env.secrets clock token id notes s).1
    serve (rejects_loan id reason) s =
        (reject_loan_route env.libraries env.secrets clock token id reason s).1
    serve (disburses_loan id) s = (disburse_loan_route env.libraries env.secrets clock token id s).1
    serve (settles_installment id) s =
        (settle_installment_route env.libraries env.secrets clock token id s).1
    serve (approves_user mailed id) s =
        (approve_user_route env.libraries env.secrets clock token mailed id s).1
    serve (rejects_user mailed id) s =
        (reject_user_route env.libraries env.secrets clock token mailed id s).1
    serve (settles_savings id) s =
        (settle_mandatory_savings_route env.libraries env.secrets clock token id s).1
    serve generates_savings s =
        (generate_remaining_year_route env.libraries env.secrets clock token
          env.mandatory_savings_amount s).1
    serve (creates_expense dto) s =
        (create_expense_route env.libraries env.secrets clock token dto s).1
    serve (updates_expense id dto) s =
        (update_expense_route env.libraries env.secrets clock token id dto s).1
    serve (deletes_expense id) s =
        (delete_expense_route env.libraries env.secrets clock token id s).1
    serve (verifies_otp call otp_code) s =
        (verify_otp_route env.libraries env.secrets clock token call env.principal_savings_amount
          otp_code s).1
    serve (resends_otp call) s = (resend_otp_route env.libraries env.secrets clock token call s).1

  unfoldable pub welcome : Call → Visit → Db → Db
  welcome call (logs_in identifier password) s =
      (login_route env.libraries env.secrets call identifier password s).1
  welcome call (registers dto) s = (register_route env.libraries env.secrets call dto s).1
  welcome call (requests_reset email) s = (request_password_reset_route call email s).1
  welcome call (confirms_reset token new_password confirm_password) s =
      (confirm_password_reset_route env.libraries env.secrets call token new_password
        confirm_password s).1

  unfoldable pub work : Clock → Job → Db → Db
  work clock (checks_overdue_installments acquired) s =
      check_overdue_installments acquired clock.date s
  work clock (creates_yearly_savings acquired) s =
      create_yearly_savings acquired env.mandatory_savings_amount clock.date s

  pub data Event : Type 0 where
    request : Clock → env.libraries.Token → Request → Event
    visit : Call → Visit → Event
    job : Clock → Job → Event

  unfoldable pub step : Event → Db → Db
  unfolding serve welcome work
  step (request clock token r) s = serve clock token r s
  step (visit call v) s = welcome call v s
  step (job clock j) s = work clock j s

  -- The state after a run.
  unfoldable pub run : List Event → Db → Db
  unfolding step
  run [] s = s
  run (e ∷ es) s = run es (step e s)
