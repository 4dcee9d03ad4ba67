-- ===== src/Witnesses/Cashbook.antt =====
-- Runs of the cashbook.
use be_lumbung_mesari.Prelude.{
  find, is_key, not, ◌&&◌, ◌≡◌, some, pos, ◌+ℤ◌, ◌-ℤ◌, none, refl, arith,
}
use be_lumbung_mesari.Exec.{◌>>◌}
use be_lumbung_mesari.Cashbook.{
  is_live, Book, CashbookTransaction, write_balance, cashbook_insert_balance,
  cashbook_update_balance, adjust_balance, create_transaction, update_rows, soft_delete_by_id,
  soft_delete_by_expense_id, release_expense, create_income_transaction, create_expense_transaction,
  update_expense_transaction, delete_expense_transaction, net, undo_balances, IncomeDestination,
  transaction_data, inflow,
}
use be_lumbung_mesari.Cashbook.Ledger.{IsConsistent}
use be_lumbung_mesari.Cashbook.Consistency.{
  create_income_transaction-IsConsistent, create_expense_transaction-IsConsistent,
}
use be_lumbung_mesari.Cashbook.Effects.{IsRespent, update_expense_transaction-IsRespent}
use be_lumbung_mesari.Cashbook.Deletion.{delete_expense-IsConsistent}
use be_lumbung_mesari.Witnesses.Fixtures.{after, value, opening, book, book-IsConsistent}

abbrev no_row : CashbookTransaction
no_row = transaction_data inflow (pos 0) (pos 0) opening opening 0 none none

-- 100 rupiah earned, and 10 and 20 rupiah spent.
abbrev earned : Book
earned = after (create_income_transaction 5 40 (pos 1000000) IncomeDestination.shu none book) book

abbrev spent : Book
spent = after (create_expense_transaction 6 50 (pos 100000) (pos 200000) none book) book

earned-IsConsistent : IsConsistent opening earned
unfolding create_income_transaction create_transaction cashbook_insert_balance write_balance ◌+ℤ◌
earned-IsConsistent =
    create_income_transaction-IsConsistent opening 5 40 (pos 1000000) IncomeDestination.shu none
      book
      (value (create_income_transaction 5 40 (pos 1000000) IncomeDestination.shu none book) no_row)
      earned book-IsConsistent refl

spent-IsConsistent : IsConsistent opening spent
unfolding create_expense_transaction create_transaction cashbook_insert_balance write_balance ◌+ℤ◌
    ◌-ℤ◌
spent-IsConsistent =
    create_expense_transaction-IsConsistent opening 6 50 (pos 100000) (pos 200000) none book
      (value (create_expense_transaction 6 50 (pos 100000) (pos 200000) none book) no_row) spent
      (omega arith) (omega arith) book-IsConsistent refl

delete_expense-IsConsistent_example :
    IsConsistent opening
      (after ((delete_expense_transaction 8 50 >> release_expense 50) spent) spent)
unfolding create_expense_transaction create_transaction cashbook_insert_balance write_balance ◌+ℤ◌
    ◌-ℤ◌ delete_expense_transaction soft_delete_by_expense_id update_rows cashbook_update_balance
    net undo_balances adjust_balance release_expense
delete_expense-IsConsistent_example =
    delete_expense-IsConsistent opening 8 50 spent
      (after ((delete_expense_transaction 8 50 >> release_expense 50) spent) spent)
      spent-IsConsistent refl

update_expense_transaction-IsRespent_example :
    (original : CashbookTransaction) × (find
        (λ r. is_key r.expense_id 50 && not r.is_reversal && is_live r)
        spent.transactions
      ≡ some original)
    × IsRespent original
        (pos 0)
        (pos 250000)
        spent.balances
        (after (update_expense_transaction 7 50 (pos 0) (pos 250000) none spent) spent).balances
unfolding create_expense_transaction create_transaction cashbook_insert_balance write_balance ◌+ℤ◌
    ◌-ℤ◌ update_expense_transaction soft_delete_by_id update_rows cashbook_update_balance
update_expense_transaction-IsRespent_example =
    update_expense_transaction-IsRespent opening 7 50 (pos 0) (pos 250000) none spent
      (after (update_expense_transaction 7 50 (pos 0) (pos 250000) none spent) spent) (omega arith)
      (omega arith) spent-IsConsistent refl
