-- ===== src/Witnesses/Expenses.antt =====
-- Runs of the expenses.
use be_lumbung_mesari.Prelude.{pos, ◌+ℤ◌, ◌-ℤ◌, ◌<ℤ◌, ◌≡◌, ◌↔◌, none, some, refl, arith}
use be_lumbung_mesari.Exec.{err, insufficient_funds}
use be_lumbung_mesari.Cashbook.{
  write_balance, cashbook_insert_balance, create_transaction, create_expense_transaction,
  create_income_transaction,
}
use be_lumbung_mesari.Cashbook.Ledger.{IsConsistent}
use be_lumbung_mesari.Db.{Db, Expense, ExpenseSource}
use be_lumbung_mesari.Expenses.{
  allocate, CreateExpenseDto, UpdateExpenseDto, new_expense, write_expense,
  create_expense_in_transaction, update_in_transaction,
}
use be_lumbung_mesari.Expenses.Allocation.{Allocation}
use be_lumbung_mesari.Expenses.Split.{IsSplit, available, allocate-IsSplit, allocate_refused}
use be_lumbung_mesari.Expenses.Books.{create_expense-IsConsistent, amounts_of}
use be_lumbung_mesari.Witnesses.Fixtures.{after, value, opening, db, book-IsConsistent}

-- 6,000 rupiah of 5,000 in the capital and 300 in the surplus is refused; 5,100 is split.
abbrev split : Allocation
split = record { shu_amount = pos 1000000; capital_amount = pos 50000000 }

allocate-IsSplit_example : IsSplit (pos 51000000) (pos 3000000) (pos 50000000) split
unfolding allocate ◌+ℤ◌ ◌-ℤ◌
allocate-IsSplit_example =
    allocate-IsSplit (pos 51000000) (pos 3000000) (pos 50000000) (omega arith) (omega arith)
      (omega arith) ExpenseSource.auto split refl

allocate_refused_example :
    allocate (some ExpenseSource.total) (pos 60000000) (pos 3000000) (pos 50000000)
      ≡ err insufficient_funds
    ↔ (available ExpenseSource.total (pos 3000000) (pos 50000000) <ℤ pos 60000000)
allocate_refused_example =
    allocate_refused (pos 60000000) (pos 3000000) (pos 50000000) (omega arith) (omega arith)
      (omega arith) ExpenseSource.total

abbrev dto : CreateExpenseDto
dto = record {
  expense_category_id = 1;
  name = "ATK";
  amount = pos 51000000;
  loan_id = none;
  notes = none;
  transaction_date = some 3;
  source = none;
}

abbrev no_expense : Expense
no_expense = new_expense 0 dto 1 ExpenseSource.auto split

abbrev with_expense : Db
with_expense = after (create_expense_in_transaction 5 dto 1 db) db

abbrev expense : Expense
expense = value (create_expense_in_transaction 5 dto 1 db) no_expense

create_expense-IsConsistent_example :
    IsSplit (pos 51000000) (pos 3000000) (pos 50000000) (amounts_of expense)
    × IsConsistent opening with_expense.book
unfolding create_expense_in_transaction write_expense allocate create_expense_transaction
    create_income_transaction create_transaction cashbook_insert_balance write_balance ◌+ℤ◌ ◌-ℤ◌
create_expense-IsConsistent_example =
    create_expense-IsConsistent opening 5 dto 1 db expense with_expense (omega arith)
      book-IsConsistent refl

with_expense-IsConsistent : IsConsistent opening with_expense.book
unfolding create_expense_in_transaction write_expense allocate create_expense_transaction
    create_income_transaction create_transaction cashbook_insert_balance write_balance ◌+ℤ◌ ◌-ℤ◌
with_expense-IsConsistent =
    (create_expense-IsConsistent opening 5 dto 1 db expense with_expense (omega arith)
      book-IsConsistent refl).1

abbrev changes : UpdateExpenseDto
changes = record {
  expense_category_id = none;
  name = none;
  amount = some (pos 2000000);
  loan_id = none;
  notes = none;
  transaction_date = none;
  source = some ExpenseSource.shu;
}

abbrev with_changes : Db
with_changes = after (update_in_transaction 6 100 changes expense none with_expense) with_expense
