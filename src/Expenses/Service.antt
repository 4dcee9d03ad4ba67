-- ===== src/Expenses/Service.antt =====
-- The methods of `ExpensesService` (src/expenses/expenses.service.ts), and the queries of
-- src/expenses/expenses.repository.ts that they make. `now` is the clock of `new Date()`.
use be_lumbung_mesari.Prelude.{
  ℕ, ◌+◌, ◌^◌, ◌-◌, ℤ, pos, ◌+ℤ◌, ltb_ℤ, leb_ℤ, Bool, true, false, not, ◌||◌, ◌==◌, Option, none,
  some, ◌∷◌, String, map, every, find, select, update_where, if◌then◌else◌,
}
use mathlib.Core.Option
use be_lumbung_mesari.Exec.{
  Result, ok, err, database, amounts_not_positive, not_found, category_not_found,
  invalid_expense_amount, validation, internal, Tx, Exec, pure, gets, modify, or_throw, when, ◌>>=◌,
  ◌>>◌, transaction, reject_if, and_read, with_row,
}
use be_lumbung_mesari.Cashbook.{
  create_expense_transaction, update_expense_transaction, delete_expense_transaction,
  release_expense,
}
use be_lumbung_mesari.Db.{ExpenseSource, ExpenseCategory, Expense, Db, in_book}
use be_lumbung_mesari.Expenses.Allocation.{Allocation, Restore, no_restore, allocate_amounts}

pub record CreateExpenseDto : Type 0 where
  pub expense_category_id : ℕ
  pub name : String
  pub amount : ℤ
  pub loan_id : Option ℕ
  pub notes : Option String
  pub transaction_date : Option ℕ
  pub source : Option ExpenseSource

-- `a || b`
abbrev pub or_else {ℓ} : {A : Type ℓ} → Option A → Option A → Option A
or_else none b = b
or_else (some a) b = some a

abbrev pub or_value {ℓ} : {A : Type ℓ} → Option A → A → A
or_value none b = b
or_value (some a) b = a

abbrev pub find_category : ℕ → Db → Option ExpenseCategory
find_category id s = find (λ c. c.id == id) s.expense_categories

abbrev pub find_expense : ℕ → Db → Option Expense
find_expense id s = find (λ e. e.id == id) s.expenses

-- `chk_expense_amounts_positive`
abbrev pub amounts_positive : Expense → Bool
amounts_positive e = ltb_ℤ (pos 0) (e.shu_amount +ℤ e.capital_amount)

-- The INSERT of `createExpense` in the repository.
abbrev pub insert_expense : Expense → Tx Db Expense
insert_expense e s =
    let inserted = record e { id = s.next_id } in
    if amounts_positive e
    then ok (inserted, record s { expenses = inserted ∷ s.expenses; next_id = s.next_id + 1 })
    else err (database amounts_not_positive)

abbrev pub new_expense : ℕ → CreateExpenseDto → ℕ → ExpenseSource → Allocation → Expense
new_expense now dto current_user_id source a = record {
  id = 0;
  expense_category_id = dto.expense_category_id;
  name = dto.name;
  shu_amount = a.shu_amount;
  capital_amount = a.capital_amount;
  created_by = current_user_id;
  loan_id = dto.loan_id;
  notes = dto.notes;
  source = some source;
  txn_date = or_value dto.transaction_date now;
}

-- The row, and its entry in the cashbook.
unfoldable pub write_expense : ℕ → Expense → Tx Db Expense
write_expense now row = do
  expense ← insert_expense row
  in_book (
      create_expense_transaction now expense.id row.shu_amount row.capital_amount
        (some expense.txn_date))
  pure expense

unfoldable pub create_expense_in_transaction : ℕ → CreateExpenseDto → ℕ → Tx Db Expense
create_expense_in_transaction now dto current_user_id = do
  found ← gets (find_category dto.expense_category_id)
  category ← or_throw found category_not_found
  let effective_source = or_value dto.source category.default_source
  a ← in_book (allocate_amounts dto.amount (some effective_source) no_restore)
  write_expense now (new_expense now dto current_user_id effective_source a)

-- 999,999,999,999.9999 rupiah
abbrev pub max_amount : ℤ
max_amount = pos (10 ^ 16 - 1)

pub record ExpenseResponse : Type 0 where
  pub expense : Expense
  pub total_amount : ℤ

abbrev pub format_expense_response : Expense → ExpenseResponse
format_expense_response e = record { expense = e; total_amount = e.shu_amount +ℤ e.capital_amount }

-- The re-read of an expense that was just written.
abbrev pub read_expense : ℕ → Db → Result ExpenseResponse
read_expense id s = elim (find_expense id s) [
  | none ↦ err internal
  | some e ↦ ok (format_expense_response e)
]

unfoldable pub create_expense : ℕ → CreateExpenseDto → ℕ → Exec Db ExpenseResponse
unfolding create_expense_in_transaction
create_expense now dto current_user_id =
    reject_if (leb_ℤ dto.amount (pos 0)) invalid_expense_amount (
      reject_if (ltb_ℤ max_amount dto.amount) validation (
        and_read (transaction (create_expense_in_transaction now dto current_user_id))
          (λ e. read_expense e.id)))

unfoldable pub find_expense_by_id : ℕ → Db → Result ExpenseResponse
find_expense_by_id id s = elim (find_expense id s) [
  | none ↦ err not_found
  | some e ↦ ok (format_expense_response e)
]

pub record UpdateExpenseDto : Type 0 where
  pub expense_category_id : Option ℕ
  pub name : Option String
  pub amount : Option ℤ
  pub loan_id : Option ℕ
  pub notes : Option String
  pub transaction_date : Option ℕ
  pub source : Option ExpenseSource

-- `updateData`: the columns that the UPDATE sets.
pub record UpdateExpense : Type 0 where
  pub amounts : Option Allocation
  pub expense_category_id : Option ℕ
  pub name : Option String
  pub loan_id : Option ℕ
  pub notes : Option String
  pub txn_date : Option ℕ

abbrev pub set_columns : UpdateExpense → Expense → Expense
set_columns d e = record e {
  shu_amount = elim d.amounts [ none ↦ e.shu_amount | some a ↦ a.shu_amount ];
  capital_amount = elim d.amounts [ none ↦ e.capital_amount | some a ↦ a.capital_amount ];
  expense_category_id = or_value d.expense_category_id e.expense_category_id;
  name = or_value d.name e.name;
  loan_id = or_else d.loan_id e.loan_id;
  notes = or_else d.notes e.notes;
  txn_date = or_value d.txn_date e.txn_date;
}

-- The UPDATE of `updateExpenseById`; the check of the table holds of what is written.
abbrev pub update_expense_by_id : ℕ → UpdateExpense → Tx Db Unit
update_expense_by_id id d s =
    let written = map (set_columns d) (select (λ e. e.id == id) s.expenses) in
    if every amounts_positive written
    then ok (tt, record s { expenses = update_where (λ e. e.id == id) (set_columns d) s.expenses })
    else err (database amounts_not_positive)

abbrev pub restore_of : Expense → Restore
restore_of e = record { restore_shu = e.shu_amount; restore_capital = e.capital_amount }

-- `dto.source || existing.source || category.default_source`
abbrev pub effective_source :
    UpdateExpenseDto → Expense → Option ExpenseCategory → Option ExpenseSource
effective_source dto existing category =
    or_else dto.source
      (or_else existing.source (Option.map (λ (c : ExpenseCategory). c.default_source) category))

-- The new amounts, if the amount is updated.
abbrev pub reallocate : Option ℤ → Option ExpenseSource → Restore → Tx Db (Option Allocation)
reallocate none source restore = pure none
reallocate (some amount) source restore = do
  a ← in_book (allocate_amounts amount source restore)
  pure (some a)

abbrev pub update_data : UpdateExpenseDto → Option Allocation → UpdateExpense
update_data dto amounts = record {
  amounts = amounts;
  expense_category_id = dto.expense_category_id;
  name = dto.name;
  loan_id = dto.loan_id;
  notes = dto.notes;
  txn_date = dto.transaction_date;
}

abbrev pub amounts_or_existing : Option Allocation → Expense → Allocation
amounts_or_existing none e = record { shu_amount = e.shu_amount; capital_amount = e.capital_amount }
amounts_or_existing (some a) e = a

abbrev pub is_some {ℓ} : {A : Type ℓ} → Option A → Bool
is_some none = false
is_some (some _) = true

-- The cashbook follows if amounts or the date are updated.
unfoldable pub update_entry : ℕ → ℕ → Option Allocation → Expense → Option ℕ → Tx Db Unit
update_entry now id amounts existing date = when (is_some amounts || is_some date) (
    in_book (
      update_expense_transaction now id (amounts_or_existing amounts existing).shu_amount
        (amounts_or_existing amounts existing).capital_amount date))

-- The transaction of `updateExpense`.
unfoldable pub update_in_transaction :
    ℕ → ℕ → UpdateExpenseDto → Expense → Option ExpenseCategory → Tx Db Unit
unfolding update_entry
update_in_transaction now id dto existing category = do
  amounts ← reallocate dto.amount (effective_source dto existing category) (restore_of existing)
  update_expense_by_id id (update_data dto amounts)
  update_entry now id amounts existing dto.transaction_date

-- The category that is named, which must exist, or the one that the expense has.
abbrev pub effective_category : UpdateExpenseDto → Expense → Db → Result (Option ExpenseCategory)
effective_category dto existing s = elim dto.expense_category_id [
  | none ↦ ok (find_category existing.expense_category_id s)
  | some id ↦ elim (find_category id s) [ none ↦ err category_not_found | some c ↦ ok (some c) ]
]

abbrev pub bad_amount : (ℤ → Bool) → Option ℤ → Bool
bad_amount test none = false
bad_amount test (some amount) = test amount

unfoldable pub update_expense : ℕ → ℕ → UpdateExpenseDto → Exec Db ExpenseResponse
unfolding update_in_transaction
update_expense now id dto s =
    with_row (find_expense id s) not_found
      (λ existing. reject_if (bad_amount (λ x. leb_ℤ x (pos 0)) dto.amount) invalid_expense_amount (
        reject_if (bad_amount (λ x. ltb_ℤ max_amount x) dto.amount) validation (λ t.
          elim (effective_category dto existing t) [
            | err e ↦ (err e, t)
            | ok category ↦
                and_read (transaction (update_in_transaction now id dto existing category))
                  (λ _. read_expense id) t
          ])))
      s

-- The DELETE; its foreign key lets go of the cashbook's rows.
abbrev pub delete_expense_by_id : ℕ → Tx Db Unit
delete_expense_by_id id =
    modify (λ s. record s { expenses = select (λ e. not (e.id == id)) s.expenses })
    >> in_book (release_expense id)

unfoldable pub delete_expense : ℕ → ℕ → Exec Db Unit
delete_expense now id s =
    with_row (find_expense id s) not_found
      (λ _. transaction (in_book (delete_expense_transaction now id) >> delete_expense_by_id id)) s
