-- ===== src/Db/Tables.antt =====
-- The tables that the services work on (src/database/migrations). Keys are numbers in place of
-- UUIDs, and `created_at` and `updated_at` are left out: no code branches on them.
use be_lumbung_mesari.Prelude.{ℕ, ℤ, Bool, Option, List, String}
use be_lumbung_mesari.Cashbook.{Book}
use be_lumbung_mesari.Calendar.{Date}

pub data ExpenseSource : Type 0 where
  auto total capital shu : ExpenseSource

pub record ExpenseCategory : Type 0 where
  pub id : ℕ
  pub code : String
  pub default_source : ExpenseSource

pub record Expense : Type 0 where
  pub id : ℕ
  pub expense_category_id : ℕ
  pub name : String
  pub shu_amount : ℤ
  pub capital_amount : ℤ
  pub created_by : ℕ
  pub loan_id : Option ℕ
  pub notes : Option String
  pub source : Option ExpenseSource
  pub txn_date : ℕ

pub record IncomeCategory : Type 0 where
  pub id : ℕ
  pub code : String

pub record Income : Type 0 where
  pub id : ℕ
  pub name : String
  pub income_category_id : ℕ
  pub amount : ℤ
  pub loan_id : Option ℕ
  pub installment_id : Option ℕ
  pub principal_saving_id : Option ℕ
  pub mandatory_saving_id : Option ℕ

pub record LoanPeriod : Type 0 where
  pub id : ℕ
  pub tenor : ℕ
  pub interest_rate : ℕ

pub data LoanStatus : Type 0 where
  pending approved rejected active completed : LoanStatus

-- The interest rate of a period is counted in ten-thousandths too.
pub record Loan : Type 0 where
  pub id : ℕ
  pub user_id : ℕ
  pub loan_period_id : ℕ
  pub principal_amount : ℤ
  pub admin_fee_amount : ℤ
  pub disbursed_amount : ℤ
  pub interest_amount : ℤ
  pub monthly_payment : ℤ
  pub last_month_payment : ℤ
  pub total_payable_amount : ℤ
  pub start_date : Date
  pub end_date : Date
  pub status : LoanStatus
  pub approved_by : Option ℕ
  pub approved_at : Option Date
  pub disbursed_at : Option Date
  pub notes : Option String

pub data InstallmentStatus : Type 0 where
  due paid overdue partial : InstallmentStatus

pub record Installment : Type 0 where
  pub id : ℕ
  pub loan_id : ℕ
  pub installment_number : ℕ
  pub due_date : Date
  pub principal_amount : ℤ
  pub interest_amount : ℤ
  pub penalty_amount : ℤ
  pub total_amount : ℤ
  pub paid_at : Option Date
  pub status : InstallmentStatus
  pub processed_by : ℕ

pub data SavingsStatus : Type 0 where
  pending due overdue paid cancelled : SavingsStatus

pub record PrincipalSavings : Type 0 where
  pub id : ℕ
  pub user_id : ℕ
  pub amount : ℤ
  pub status : SavingsStatus
  pub processed_by : Option ℕ
  pub paid_at : Option ℕ

-- `period` counts months from the year 0: the code only stores the first day of a month.
pub record MandatorySavings : Type 0 where
  pub id : ℕ
  pub user_id : ℕ
  pub period : ℕ
  pub amount : ℤ
  pub status : SavingsStatus
  pub processed_by : Option ℕ
  pub paid_at : Option ℕ

pub data UserStatus : Type 0 where
  waiting_deposit pending active inactive rejected : UserStatus

pub data UserRole : Type 0 where
  superadministrator administrator member : UserRole

pub record User : Type 0 where
  pub id : ℕ
  pub email : String
  pub fullname : String
  pub username : String
  pub password : String
  pub phone_number : String
  pub address : String
  pub status : UserStatus
  pub role_id : UserRole
  pub otp_code : Option String
  pub otp_expires_at : Option ℕ
  pub otp_verified : Bool
  pub password_reset_token : Option String
  pub password_reset_expires_at : Option ℕ

-- `next_id` is the key that the database draws next for these tables.
pub record Db : Type 0 where
  pub book : Book
  pub expense_categories : List ExpenseCategory
  pub expenses : List Expense
  pub income_categories : List IncomeCategory
  pub incomes : List Income
  pub loan_periods : List LoanPeriod
  pub loans : List Loan
  pub installments : List Installment
  pub principal_savings : List PrincipalSavings
  pub mandatory_savings : List MandatorySavings
  pub users : List User
  pub next_id : ℕ
