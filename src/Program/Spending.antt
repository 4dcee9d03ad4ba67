-- ===== src/Program/Spending.antt =====
-- The methods on expenses leave what is kept, whether they return or throw.
use be_lumbung_mesari.Prelude.{ℕ, pos, leb_ℤ, ltb_ℤ, ◌≡◌, false, some, inl, inr}
use be_lumbung_mesari.Exec.{
  Result, ok, err, Exec, not_found, invalid_expense_amount, validation, reject_if, and_read,
  transaction, Result-cases, with_row-keeps, reject_if-keeps, and_read-keeps, transaction-keeps,
}
use be_lumbung_mesari.Exec.Keeps.{Leaves, method_rules}
use be_lumbung_mesari.Db.{Db, Expense}
use be_lumbung_mesari.Expenses.{
  CreateExpenseDto, UpdateExpenseDto, ExpenseResponse, max_amount, bad_amount, read_expense,
  find_expense, effective_category, create_expense_in_transaction, update_in_transaction,
  create_expense, update_expense, delete_expense,
}
use be_lumbung_mesari.Program.{Env}
use be_lumbung_mesari.Program.Kept.{IsKept}

-- The rest of an update, after its tests.
abbrev written : ℕ → ℕ → UpdateExpenseDto → Expense → Exec Db ExpenseResponse
written now id dto existing t = elim (effective_category dto existing t) [
  | err e ↦ (err e, t)
  | ok category ↦
      and_read (transaction (update_in_transaction now id dto existing category))
        (λ _. read_expense id) t
]

module _ (env : Env) (P : Db → Type 0) (kept : IsKept env P) where
  pub create_expense-Leaves :
      (now : ℕ) (dto : CreateExpenseDto) (uid : ℕ) → Leaves P (create_expense now dto uid)
  unfolding create_expense
  create_expense-Leaves now dto uid = record {
    holds = λ s h. reject_if-keeps P _ _ _ s h (λ positive.
        let keeps = kept.create_expense now dto uid positive in
        let leaves : Leaves P (
            reject_if (ltb_ℤ max_amount dto.amount) validation (
              and_read (transaction (create_expense_in_transaction now dto uid))
                (λ e. read_expense e.id))) =
          search (method_rules, keeps) in
        leaves.holds s h);
  }

  pub delete_expense-Leaves : (now id : ℕ) → Leaves P (delete_expense now id)
  unfolding delete_expense
  delete_expense-Leaves now id = let keeps = kept.delete_expense in search (method_rules, keeps)

  written-keeps :
      (now id : ℕ) (dto : UpdateExpenseDto) (existing : Expense) (s : Db)
      → bad_amount (λ x. leb_ℤ x (pos 0)) dto.amount ≡ false
      → find_expense id s ≡ some existing
      → P s
      → P
          (elim (effective_category dto existing s) as (λ _. Result ExpenseResponse × Db) [
            | err e ↦ (err e, s)
            | ok category ↦
                and_read
                  (transaction (update_in_transaction now id dto existing category))
                  (λ _. read_expense id)
                  s
          ]).1
  written-keeps now id dto existing s positive found h =
      elim (Result-cases (effective_category dto existing s)) [
        | inr (x, e) ↦ rw e h
        | inl (category, e) ↦
            let m = update_in_transaction now id dto existing category in
            rw e (
              and_read-keeps P (transaction m) (λ _. read_expense id) s
                (transaction-keeps P m s
                  (λ _ s' went.
                    kept.update_expense now id dto existing category s s' positive found h went)
                  h))
      ]

  pub update_expense-Leaves :
      (now id : ℕ) (dto : UpdateExpenseDto) → Leaves P (update_expense now id dto)
  unfolding update_expense
  update_expense-Leaves now id dto = record {
    holds = λ s h. with_row-keeps P (find_expense id s) not_found _ s h (λ existing found.
        let rest = written now id dto existing in
        let checked = reject_if (bad_amount (λ x. ltb_ℤ max_amount x) dto.amount) validation rest in
        reject_if-keeps P (bad_amount (λ x. leb_ℤ x (pos 0)) dto.amount) invalid_expense_amount
          checked s h
          (λ positive.
            reject_if-keeps P (bad_amount (λ x. ltb_ℤ max_amount x) dto.amount) validation rest s h
              (λ _. written-keeps now id dto existing s positive found h)));
  }
