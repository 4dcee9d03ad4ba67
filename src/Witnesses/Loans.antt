-- ===== src/Witnesses/Loans.antt =====
-- Runs of the loans.
use be_lumbung_mesari.Prelude.{
  ◌+ℤ◌, ◌-ℤ◌, ◌*ℤ◌, ◌==◌, ◌≡◌, ◌≢◌, none, some, refl, arith, update_where,
}
use be_lumbung_mesari.Exec.{ok, err, bad_request}
use be_lumbung_mesari.Calendar.{set_month, set_date, days_in_month}
use be_lumbung_mesari.Cashbook.{
  create_income_transaction, create_expense_transaction, create_transaction,
  cashbook_insert_balance, write_balance,
}
use be_lumbung_mesari.Db.{Db, LoanStatus}
use be_lumbung_mesari.Expenses.{allocate, write_expense, create_expense_in_transaction}
use be_lumbung_mesari.Incomes.{
  book_income, create_categorised, create_installment_principal_income,
  create_installment_interest_income, create_installment_penalty_income,
  create_loan_admin_fee_income,
}
use be_lumbung_mesari.Loans.Schedule.{due_date, installments_from, generate_installments}
use be_lumbung_mesari.Loans.Repository.{
  LoanTable, find_by_id, check_max_loans, update_loan, update_loan_status, activate_loan,
  set_status, insert_installment, create_installments, update_installment, in_order,
  count_overdue_installments, find_oldest_unpenalized, add_penalty_to_installment, set_overdue,
}
use be_lumbung_mesari.Loans.Application.{decide_loan}
use be_lumbung_mesari.Loans.Service.{
  pay_out, disburse_in_transaction, book_installment, settle_in_transaction,
}
use be_lumbung_mesari.Loans.Overdue.{penalty_amount, penalize_oldest, mark_and_penalize}
use be_lumbung_mesari.Loans.Settlement.{
  IsSettled, settle_in_transaction-IsSettled, settle_twice_refused,
}
use be_lumbung_mesari.Loans.Decisions.{IsDecided, decide_loan-IsDecided}
use be_lumbung_mesari.Loans.Lifecycle.{IsDisbursed, disburse_in_transaction-IsDisbursed}
use be_lumbung_mesari.Loans.Once.{disbursed_once}
use be_lumbung_mesari.Loans.Penalties.{Outcome, mark_and_penalize_lem}
use be_lumbung_mesari.Witnesses.Fixtures.{
  after, opening, db, clock, loan, just_due, disbursement_category, book-IsConsistent,
}

abbrev settled : Db
settled = after (settle_in_transaction clock 21 2 db) db

settle_in_transaction-IsSettled_example : IsSettled opening clock 21 2 db settled
unfolding settle_in_transaction update_installment book_installment book_income create_categorised
    create_installment_principal_income create_installment_interest_income
    create_installment_penalty_income create_loan_admin_fee_income create_expense_in_transaction
    write_expense allocate create_expense_transaction create_income_transaction create_transaction
    cashbook_insert_balance write_balance ◌+ℤ◌ ◌-ℤ◌
settle_in_transaction-IsSettled_example =
    settle_in_transaction-IsSettled clock 21 2 opening db settled book-IsConsistent refl

settle_twice_refused_example : settle_in_transaction clock 21 5 settled ≡ err bad_request
unfolding settle_in_transaction update_installment book_installment book_income create_categorised
    create_installment_principal_income create_installment_interest_income
    create_installment_penalty_income create_loan_admin_fee_income create_expense_in_transaction
    write_expense allocate create_expense_transaction create_income_transaction create_transaction
    cashbook_insert_balance write_balance ◌+ℤ◌ ◌-ℤ◌
settle_twice_refused_example =
    settle_twice_refused opening clock 21 2 db settled book-IsConsistent refl clock 5

abbrev row : LoanTable
row = record { loan = loan; tenor = 2; interest_rate = 100 }

abbrev disbursed : Db
disbursed = after (disburse_in_transaction clock row disbursement_category 2 db) db

disburse_in_transaction-IsDisbursed_example :
    IsDisbursed clock row disbursement_category 2 opening db disbursed
unfolding disburse_in_transaction activate_loan update_loan check_max_loans create_installments
    insert_installment generate_installments installments_from due_date set_month set_date
    days_in_month pay_out ◌*ℤ◌ book_income create_categorised create_installment_principal_income
    create_installment_interest_income create_installment_penalty_income
    create_loan_admin_fee_income create_expense_in_transaction write_expense allocate
    create_expense_transaction create_income_transaction create_transaction cashbook_insert_balance
    write_balance ◌+ℤ◌ ◌-ℤ◌
disburse_in_transaction-IsDisbursed_example =
    disburse_in_transaction-IsDisbursed clock row disbursement_category 2 opening db disbursed
      (omega arith) book-IsConsistent refl

disbursed_once_example :
    disburse_in_transaction clock row disbursement_category 5 disbursed ≢ ok (tt, db)
unfolding disburse_in_transaction activate_loan update_loan check_max_loans create_installments
    insert_installment generate_installments installments_from due_date set_month set_date
    days_in_month pay_out ◌*ℤ◌ book_income create_categorised create_installment_principal_income
    create_installment_interest_income create_installment_penalty_income
    create_loan_admin_fee_income create_expense_in_transaction write_expense allocate
    create_expense_transaction create_income_transaction create_transaction cashbook_insert_balance
    write_balance ◌+ℤ◌ ◌-ℤ◌
disbursed_once_example =
    disbursed_once opening clock row disbursement_category 2 db disbursed (omega arith)
      (omega arith) book-IsConsistent refl clock disbursement_category 5 db

abbrev approved : Db
approved = after (decide_loan 8 LoanStatus.approved (some 2) none clock.date db) db

decide_loan-IsDecided_example :
    IsDecided 8 (set_status LoanStatus.approved (some 2) none clock.date) db approved
unfolding decide_loan update_loan_status update_loan check_max_loans find_by_id
decide_loan-IsDecided_example =
    decide_loan-IsDecided 8 LoanStatus.approved (some 2) none clock.date db approved refl

abbrev late_row : LoanTable
late_row = record {
  loan = record loan { id = 9; user_id = 4; status = LoanStatus.active };
  tenor = 2;
  interest_rate = 100;
}

abbrev penalized : Db
penalized = after (mark_and_penalize 9 just_due late_row db) db

mark_and_penalize_lem_example :
    Outcome 9
      (penalty_amount late_row)
      (count_overdue_installments 9 db)
      (record db { installments = update_where (λ x. x.id == 23) set_overdue db.installments })
      penalized
unfolding mark_and_penalize penalize_oldest update_installment count_overdue_installments
    find_oldest_unpenalized in_order add_penalty_to_installment ◌*ℤ◌ ◌+ℤ◌ ◌-ℤ◌
mark_and_penalize_lem_example = mark_and_penalize_lem 9 just_due late_row db penalized refl
