-- ===== src/Program/Kept.antt =====
-- What an invariant of the program has to show: that each transaction keeps it. Borrowing, Spending,
-- Membership and Runs lead from there to the methods, the requests and the runs.
use be_lumbung_mesari.Prelude.{ℕ, not, ℤ, pos, leb_ℤ, ◌≡◌, false, Option, none, some, List, String}
use be_lumbung_mesari.Exec.{ok, ◌>>◌}
use be_lumbung_mesari.Exec.Keeps.{Preserves}
use be_lumbung_mesari.Calendar.{Clock, Date}
use be_lumbung_mesari.Cashbook.{delete_expense_transaction}
use be_lumbung_mesari.Db.{
  Db, Expense, ExpenseCategory, LoanPeriod, LoanStatus, MandatorySavings, UserStatus, Installment,
  in_book,
}
use be_lumbung_mesari.Expenses.{
  CreateExpenseDto, UpdateExpenseDto, bad_amount, create_expense_in_transaction, find_expense,
  update_in_transaction, delete_expense_by_id,
}
use be_lumbung_mesari.Loans.Repository.{LoanTable, find_by_id, is_approved, insert_loan}
use be_lumbung_mesari.Loans.Application.{CreateLoanDto, loan_data, decide_loan}
use be_lumbung_mesari.Loans.Service.{disburse_in_transaction, settle_in_transaction}
use be_lumbung_mesari.Loans.Overdue.{process_loan_in_transaction}
use be_lumbung_mesari.Savings.Records.{insert_or_ignore}
use be_lumbung_mesari.Savings.Service.{settle_mandatory_in_transaction}
use be_lumbung_mesari.Users.Repository.{UpdateUserEntity}
use be_lumbung_mesari.Users.Service.{
  CreatedUser, create_user, update, approve_in_transaction, reject_in_transaction,
}
use be_lumbung_mesari.Auth.Service.{verify_in_transaction}
use be_lumbung_mesari.Program.{Env}

-- A loan is decided as one of these.
pub data IsDecision : LoanStatus → Type 0 where
  approval : IsDecision LoanStatus.approved
  rejection : IsDecision LoanStatus.rejected

pub record IsKept (env : Env) (P : Db → Type 0) : Type 0 where
  pub create_loan :
      (today : Date) (user_id : ℕ) (dto : CreateLoanDto) (p : LoanPeriod)
      → Preserves P (insert_loan (loan_data env.store env.admin_fee_rate today user_id dto p))
  pub decide_loan :
      (id : ℕ) (status : LoanStatus) (by : Option ℕ) (notes : Option String) (today : Date)
      → IsDecision status
      → Preserves P (decide_loan id status by notes today)
  pub disburse :
      (clock : Clock) (id : ℕ) (row : LoanTable) (category : ExpenseCategory) (admin_id : ℕ)
      (s s' : Db)
      → find_by_id id s ≡ some row
      → not (is_approved row.loan.status) ≡ false
      → P s
      → disburse_in_transaction clock row category admin_id s ≡ ok (tt, s')
      → P s'
  pub settle_installment :
      (clock : Clock) (id admin_id : ℕ) → Preserves P (settle_in_transaction clock id admin_id)
  pub process_loan :
      (id : ℕ) (rows : List Installment) → Preserves P (process_loan_in_transaction id rows)
  pub settle_mandatory :
      (clock : Clock) (id admin_id : ℕ)
      → Preserves P (settle_mandatory_in_transaction clock id admin_id)
  pub add_savings : (row : MandatorySavings) (s : Db) → P s → P (insert_or_ignore row s)
  pub create_expense :
      (now : ℕ) (dto : CreateExpenseDto) (uid : ℕ)
      → leb_ℤ dto.amount (pos 0) ≡ false
      → Preserves P (create_expense_in_transaction now dto uid)
  pub update_expense :
      (now id : ℕ) (dto : UpdateExpenseDto) (existing : Expense) (category : Option ExpenseCategory)
      (s s' : Db)
      → bad_amount (λ x. leb_ℤ x (pos 0)) dto.amount ≡ false
      → find_expense id s ≡ some existing
      → P s
      → update_in_transaction now id dto existing category s ≡ ok (tt, s')
      → P s'
  pub delete_expense :
      (now id : ℕ)
      → Preserves P (in_book (delete_expense_transaction now id) >> delete_expense_by_id id)
  pub create_user : (c : CreatedUser) → c.status ≡ UserStatus.pending → Preserves P (create_user c)
  pub update_user :
      (id : ℕ) (changes : UpdateUserEntity)
      → changes.status ≡ none
      → Preserves P (update id changes)
  pub verify_user : (configured : ℤ) (id : ℕ) → Preserves P (verify_in_transaction configured id)
  pub approve_user :
      (clock : Clock) (id admin_id : ℕ) → Preserves P (approve_in_transaction clock id admin_id)
  pub reject_user : (id : ℕ) → Preserves P (reject_in_transaction id)
