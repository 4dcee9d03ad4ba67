-- ===== src/Cashbook/Repository.antt =====
-- The queries on the two tables: src/cashbook/cashbook-transaction.repository.ts and
-- src/cashbook/cashbook-balance.repository.ts.
use be_lumbung_mesari.Prelude.{
  ℕ, ◌+◌, ℤ, pos, ◌+ℤ◌, ltb_ℤ, Bool, true, false, not, ◌&&◌, Option, none, some, List, [], ◌∷◌,
  is_key, ◌==◌, find, select, if◌then◌else◌,
}
use be_lumbung_mesari.Exec.{
  ok, err, database, amounts_not_positive, Tx, pure, gets, modify, ◌>>=◌, ◌>>◌,
}
use be_lumbung_mesari.Cashbook.Table.{BalanceType, Balances, CashbookTransaction, Book, add_balance}
use be_lumbung_mesari.Cashbook.Trigger.{cashbook_insert_balance, cashbook_update_balance}

-- A statement on the balances alone.
abbrev pub on_balances : Tx Balances Unit → Tx Book Unit
on_balances m k = elim (m k.balances) [
  | ok (_, b) ↦ ok (tt, record k { balances = b })
  | err e ↦ err e
]

-- `lockAllForUpdate`, and the same SELECT … FOR UPDATE written out in the service.
abbrev pub lock_all_for_update : Tx Book Balances
lock_all_for_update = gets (λ k. k.balances)

unfoldable pub adjust_balance : BalanceType → ℤ → Tx Book Unit
adjust_balance t delta = on_balances (add_balance t delta)

-- The INSERT draws the key, checks `chk_cashbook_amounts_positive` and fires the trigger.
unfoldable pub create_transaction : CashbookTransaction → Tx Book CashbookTransaction
create_transaction row k =
    let inserted = record row { id = k.next_id } in
    if ltb_ℤ (pos 0) (row.shu_amount +ℤ row.capital_amount)
    then (on_balances (cashbook_insert_balance row.direction row.shu_amount row.capital_amount)
          >> modify
              (λ j. record j { transactions = inserted ∷ j.transactions; next_id = j.next_id + 1 })
          >> pure inserted)
        k
    else err (database amounts_not_positive)

-- An UPDATE of the rows that pass a test; the update trigger fires for each.
unfoldable pub update_rows :
    (CashbookTransaction → Bool)
    → (CashbookTransaction → CashbookTransaction)
    → List CashbookTransaction
    → Tx Balances (List CashbookTransaction)
update_rows test f [] = pure []
update_rows test f (r ∷ rs) =
    let rest = update_rows test f rs in
    if test r
    then (cashbook_update_balance r (f r) >> (rest >>= λ rs'. pure (f r ∷ rs')))
    else (rest >>= λ rs'. pure (r ∷ rs'))

abbrev pub update_transactions :
    (CashbookTransaction → Bool) → (CashbookTransaction → CashbookTransaction) → Tx Book Unit
update_transactions test f k = elim (update_rows test f k.transactions k.balances) [
  | ok (rows, b) ↦ ok (tt, record k { balances = b; transactions = rows })
  | err e ↦ err e
]

-- `deleted_at IS NULL`
abbrev pub is_live : CashbookTransaction → Bool
is_live r = elim r.deleted_at [ none ↦ true | some _ ↦ false ]

unfoldable pub soft_delete_by_id : ℕ → ℕ → Tx Book Unit
soft_delete_by_id now id =
    update_transactions (λ r. r.id == id && is_live r) (λ r. record r { deleted_at = some now })

unfoldable pub soft_delete_by_expense_id : ℕ → ℕ → Tx Book Unit
soft_delete_by_expense_id now id =
    update_transactions (λ r. is_key r.expense_id id && is_live r)
      (λ r. record r { deleted_at = some now })

unfoldable pub soft_delete_by_income_id : ℕ → ℕ → Tx Book Unit
soft_delete_by_income_id now id =
    update_transactions (λ r. is_key r.income_id id && is_live r)
      (λ r. record r { deleted_at = some now })

-- The foreign keys are ON DELETE SET NULL.
unfoldable pub release_expense : ℕ → Tx Book Unit
release_expense id =
    update_transactions (λ r. is_key r.expense_id id) (λ r. record r { expense_id = none })

unfoldable pub release_income : ℕ → Tx Book Unit
release_income id =
    update_transactions (λ r. is_key r.income_id id) (λ r. record r { income_id = none })

-- The newest row comes first, as in ORDER BY created_at DESC.
abbrev pub find_latest_active_by_expense_id : ℕ → Tx Book (Option CashbookTransaction)
find_latest_active_by_expense_id id =
    gets (λ k. find (λ r. is_key r.expense_id id && not r.is_reversal && is_live r) k.transactions)

abbrev pub find_latest_active_by_income_id : ℕ → Tx Book (Option CashbookTransaction)
find_latest_active_by_income_id id =
    gets (λ k. find (λ r. is_key r.income_id id && not r.is_reversal && is_live r) k.transactions)

-- All rows, the soft-deleted too.
abbrev pub find_all_by_expense_id : ℕ → Tx Book (List CashbookTransaction)
find_all_by_expense_id id = gets (λ k. select (λ r. is_key r.expense_id id) k.transactions)

abbrev pub find_all_by_income_id : ℕ → Tx Book (List CashbookTransaction)
find_all_by_income_id id = gets (λ k. select (λ r. is_key r.income_id id) k.transactions)
