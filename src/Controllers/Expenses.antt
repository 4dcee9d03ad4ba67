-- ===== src/Controllers/Expenses.antt =====
-- The routes of src/expenses/expenses.controller.ts for one expense, all for administrators.
use be_lumbung_mesari.Prelude.{ℕ, [], ◌∷◌}
use be_lumbung_mesari.Exec.{Exec}
use be_lumbung_mesari.Calendar.{Clock}
use be_lumbung_mesari.Db.{Db, UserRole}
use be_lumbung_mesari.Auth.Tokens.{Libraries, Secrets}
use be_lumbung_mesari.Expenses.{
  CreateExpenseDto, ExpenseResponse, UpdateExpenseDto, create_expense, find_expense_by_id,
  update_expense, delete_expense,
}
use be_lumbung_mesari.Controllers.{guarded, catching, only_http}

module _ (libraries : Libraries) (secrets : Secrets) (clock : Clock) (token : libraries.Token) where
  unfoldable pub create_expense_route : CreateExpenseDto → Exec Db ExpenseResponse
  unfolding guarded create_expense
  create_expense_route dto =
      guarded libraries secrets clock token
        (UserRole.administrator ∷ UserRole.superadministrator ∷ [])
        (λ user. catching only_http (create_expense clock.instant dto user.id))

  unfoldable pub find_expense_by_id_route : ℕ → Exec Db ExpenseResponse
  unfolding guarded find_expense_by_id
  find_expense_by_id_route id =
      guarded libraries secrets clock token
        (UserRole.administrator ∷ UserRole.superadministrator ∷ [])
        (λ user s. (only_http (find_expense_by_id id s), s))

  unfoldable pub update_expense_route : ℕ → UpdateExpenseDto → Exec Db ExpenseResponse
  unfolding guarded update_expense
  update_expense_route id dto =
      guarded libraries secrets clock token
        (UserRole.administrator ∷ UserRole.superadministrator ∷ [])
        (λ user. catching only_http (update_expense clock.instant id dto))

  unfoldable pub delete_expense_route : ℕ → Exec Db Unit
  unfolding guarded delete_expense
  delete_expense_route id =
      guarded libraries secrets clock token
        (UserRole.administrator ∷ UserRole.superadministrator ∷ [])
        (λ user. catching only_http (delete_expense clock.instant id))
