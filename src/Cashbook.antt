-- ===== src/Cashbook.antt =====
-- src/cashbook, with the triggers and constraints of its tables.
mod Table
mod Trigger
mod Repository
mod Service
pub mod Movement
pub mod Rows
pub mod Ledger
pub mod Consistency
pub mod Replacement
pub mod Effects
pub mod Undoing
pub mod Deletion
pub use Table.*
unfoldable pub use Table.{write_balance}
pub use Trigger.*
unfoldable pub use Trigger.{cashbook_insert_balance, cashbook_update_balance}
pub use Repository.*
unfoldable pub use Repository.{
  adjust_balance, create_transaction, update_rows, soft_delete_by_id, soft_delete_by_expense_id,
  soft_delete_by_income_id, release_expense, release_income,
}
pub use Service.*
unfoldable pub use Service.{
  create_income_transaction, create_expense_transaction, update_expense_transaction,
  update_income_transaction, net, undo_balances, delete_expense_transaction,
  delete_income_transaction,
}
