-- ===== src/Expenses.antt =====
-- src/expenses: the split of an expense over the funds, and the methods on expenses.
pub mod Allocation
mod Service
pub mod Split
pub mod Books
pub mod Changes
pub use Allocation.*
unfoldable pub use Allocation.{allocate}
pub use Service.*
unfoldable pub use Service.{
  write_expense, create_expense_in_transaction, create_expense, find_expense_by_id, update_entry,
  update_in_transaction, update_expense, delete_expense,
}
