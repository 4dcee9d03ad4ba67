-- ===== src/Loans/Service.antt =====
-- Where a loan moves money: `disburseLoan` and `settleInstallment` (src/loans/loans.service.ts).
use be_lumbung_mesari.Prelude.{ℕ, pos, ltb_ℤ, not, Option, none, some, String, str_eq, find}
use be_lumbung_mesari.Exec.{
  not_found, bad_request, Tx, Exec, throw_if, gets, or_throw, when, transaction, with_row,
  reject_if, ◌>>=◌, ◌>>◌,
}
use be_lumbung_mesari.Calendar.{Clock}
use be_lumbung_mesari.Cashbook.{IncomeDestination}
use be_lumbung_mesari.Db.{Db, Loan, Installment, ExpenseCategory, ExpenseSource}
use be_lumbung_mesari.Expenses.{CreateExpenseDto, create_expense_in_transaction}
use be_lumbung_mesari.Incomes.{
  book_income, create_loan_admin_fee_income, create_installment_principal_income,
  create_installment_interest_income, create_installment_penalty_income,
}
use be_lumbung_mesari.Loans.Schedule.{generate_installments}
use be_lumbung_mesari.Loans.Repository.{
  LoanTable, find_by_id, is_approved, is_paid, activate_loan, create_installments,
  find_installment_by_id, update_installment, set_paid,
}

abbrev pub find_expense_category_by_code : String → Db → Option ExpenseCategory
find_expense_category_by_code code s = find (λ c. str_eq c.code code) s.expense_categories

abbrev pub disbursement_dto : Loan → ExpenseCategory → CreateExpenseDto
disbursement_dto loan category = record {
  expense_category_id = category.id;
  name = "Pencairan Pinjaman";
  amount = loan.disbursed_amount;
  loan_id = some loan.id;
  notes = some "Pencairan pinjaman kepada anggota";
  transaction_date = none;
  source = some ExpenseSource.capital;
}

-- What is paid out, and the fee that is kept.
unfoldable pub pay_out : Clock → Loan → ExpenseCategory → ℕ → Tx Db Unit
unfolding book_income
pay_out clock loan category admin_id = do
  create_expense_in_transaction clock.instant (disbursement_dto loan category) admin_id
  book_income clock.instant loan.admin_fee_amount IncomeDestination.shu
      (create_loan_admin_fee_income loan.id loan.admin_fee_amount)

-- The transaction of `disburseLoan`, on the loan as it was read before.
unfoldable pub disburse_in_transaction : Clock → LoanTable → ExpenseCategory → ℕ → Tx Db Unit
unfolding pay_out
disburse_in_transaction clock row category admin_id = do
  activate_loan row.loan.id clock.date
  create_installments (generate_installments row.loan row.tenor admin_id clock.date)
  pay_out clock row.loan category admin_id

unfoldable pub disburse_loan : Clock → ℕ → ℕ → Exec Db Unit
unfolding disburse_in_transaction
disburse_loan clock id admin_id s =
    with_row (find_by_id id s) not_found
      (λ row. reject_if (not (is_approved row.loan.status)) bad_request (λ t.
        with_row (find_expense_category_by_code "loan_disbursement" t) not_found
          (λ category. transaction (disburse_in_transaction clock row category admin_id)) t))
      s

-- The incomes of an installment: its principal, its interest, and its penalty if it has one.
unfoldable pub book_installment : ℕ → Installment → Tx Db Unit
unfolding book_income
book_installment now i = do
  book_income now i.principal_amount IncomeDestination.capital
      (create_installment_principal_income i.id "Pembayaran pokok angsuran" i.principal_amount)
  book_income now i.interest_amount IncomeDestination.shu
      (create_installment_interest_income i.id "Bunga angsuran" i.interest_amount)
  when (ltb_ℤ (pos 0) i.penalty_amount) (
      book_income now i.penalty_amount IncomeDestination.shu
        (create_installment_penalty_income i.id "Denda angsuran" i.penalty_amount))

unfoldable pub settle_in_transaction : Clock → ℕ → ℕ → Tx Db Unit
unfolding book_installment
settle_in_transaction clock id admin_id = do
  found ← gets (find_installment_by_id id)
  i ← or_throw found not_found
  throw_if (is_paid i.status) bad_request
  update_installment id (set_paid admin_id clock.date)
  book_installment clock.instant i

unfoldable pub settle_installment : Clock → ℕ → ℕ → Exec Db Unit
unfolding settle_in_transaction
settle_installment clock id admin_id = transaction (settle_in_transaction clock id admin_id)
