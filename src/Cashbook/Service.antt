-- ===== src/Cashbook/Service.antt =====
-- The methods of `CashbookTransactionService` (src/cashbook/cashbook-transaction.service.ts) that
-- run in a transaction. `now` is the clock of `new Date()`.
use be_lumbung_mesari.Prelude.{
  ℕ, ℤ, pos, ◌+ℤ◌, ◌-ℤ◌, eq_ℤ, true, false, not, Option, none, some, List, [], ◌∷◌,
}
use be_lumbung_mesari.Exec.{missing_row, Tx, pure, or_throw, when, ◌>>=◌, ◌>>◌}
use be_lumbung_mesari.Cashbook.Table.{
  BalanceType, Balances, Direction, inflow, outflow, CashbookTransaction, Book,
}
use be_lumbung_mesari.Cashbook.Repository.{
  lock_all_for_update, adjust_balance, create_transaction, soft_delete_by_id,
  soft_delete_by_expense_id, soft_delete_by_income_id, find_latest_active_by_expense_id,
  find_latest_active_by_income_id, find_all_by_expense_id, find_all_by_income_id,
}

pub data IncomeDestination : Type 0 where
  shu capital : IncomeDestination

-- `destination === 'shu' ? amount : 0`, and the same for capital
abbrev pub shu_part : IncomeDestination → ℤ → ℤ
shu_part shu amount = amount
shu_part capital amount = pos 0

abbrev pub capital_part : IncomeDestination → ℤ → ℤ
capital_part shu amount = pos 0
capital_part capital amount = amount

-- `date || fallback`
abbrev or_date : Option ℕ → ℕ → ℕ
or_date none d = d
or_date (some t) d = t

-- The snapshot after money has come in, and after it has gone out.
abbrev pub after_in : ℤ → ℤ → ℤ → Balances → Balances
after_in s c amount b = record {
  shu = b.shu +ℤ s;
  capital = b.capital +ℤ c;
  total = b.total +ℤ amount;
}

abbrev pub after_out : ℤ → ℤ → ℤ → Balances → Balances
after_out s c amount b = record {
  shu = b.shu -ℤ s;
  capital = b.capital -ℤ c;
  total = b.total -ℤ amount;
}

-- The object that `createTransaction` is given; the insert draws its key.
abbrev pub transaction_data :
    Direction → ℤ → ℤ → Balances → Balances → ℕ → Option ℕ → Option ℕ → CashbookTransaction
transaction_data direction s c before after date income expense = record {
  id = 0;
  txn_date = date;
  direction = direction;
  shu_amount = s;
  capital_amount = c;
  shu_balance_before = before.shu;
  shu_balance_after = after.shu;
  capital_balance_before = before.capital;
  capital_balance_after = after.capital;
  total_balance_before = before.total;
  total_balance_after = after.total;
  income_id = income;
  expense_id = expense;
  is_reversal = false;
  reversal_of = none;
  deleted_at = none;
}

abbrev pub reversing : ℕ → CashbookTransaction → CashbookTransaction
reversing id r = record r { is_reversal = true; reversal_of = some id }

unfoldable pub create_income_transaction :
    ℕ → ℕ → ℤ → IncomeDestination → Option ℕ → Tx Book CashbookTransaction
create_income_transaction now income_id amount destination txn_date = do
  before ← lock_all_for_update
  let s = shu_part destination amount
  let c = capital_part destination amount
  create_transaction (
      transaction_data inflow s c before (after_in s c amount before) (or_date txn_date now)
        (some income_id) none)

unfoldable pub create_expense_transaction : ℕ → ℕ → ℤ → ℤ → Option ℕ → Tx Book CashbookTransaction
create_expense_transaction now expense_id s c txn_date = do
  before ← lock_all_for_update
  create_transaction (
      transaction_data outflow s c before (after_out s c (s +ℤ c) before) (or_date txn_date now)
        none (some expense_id))

-- The two inserts that replace an entry: its reversal, and the new entry after it.
abbrev pub replace_expense : ℕ → ℤ → ℤ → Option ℕ → CashbookTransaction → Balances → Tx Book Unit
replace_expense expense_id s c txn_date original before = do
  let old_s = original.shu_amount
  let old_c = original.capital_amount
  let reversed = after_in old_s old_c (old_s +ℤ old_c) before
  create_transaction (
      reversing original.id (
        transaction_data inflow old_s old_c before reversed original.txn_date none
          (some expense_id)))
  create_transaction (
      transaction_data outflow s c reversed (after_out s c (s +ℤ c) reversed)
        (or_date txn_date original.txn_date) none (some expense_id))
  pure tt

unfoldable pub update_expense_transaction : ℕ → ℕ → ℤ → ℤ → Option ℕ → Tx Book Unit
update_expense_transaction now expense_id s c txn_date = do
  found ← find_latest_active_by_expense_id expense_id
  original ← or_throw found missing_row
  before ← lock_all_for_update
  soft_delete_by_id now original.id
  replace_expense expense_id s c txn_date original before

abbrev pub replace_income :
    ℕ → ℤ → IncomeDestination → Option ℕ → CashbookTransaction → Balances → Tx Book Unit
replace_income income_id amount destination txn_date original before = do
  let old_s = original.shu_amount
  let old_c = original.capital_amount
  let reversed = after_out old_s old_c (old_s +ℤ old_c) before
  let s = shu_part destination amount
  let c = capital_part destination amount
  create_transaction (
      reversing original.id (
        transaction_data outflow old_s old_c before reversed original.txn_date (some income_id)
          none))
  create_transaction (
      transaction_data inflow s c reversed (after_in s c amount reversed)
        (or_date txn_date original.txn_date) (some income_id) none)
  pure tt

unfoldable pub update_income_transaction : ℕ → ℕ → ℤ → IncomeDestination → Option ℕ → Tx Book Unit
update_income_transaction now income_id amount destination txn_date = do
  found ← find_latest_active_by_income_id income_id
  original ← or_throw found missing_row
  before ← lock_all_for_update
  soft_delete_by_id now original.id
  replace_income income_id amount destination txn_date original before

-- `sign * amount`
abbrev pub signed : Direction → ℤ → ℤ
signed inflow x = x
signed outflow x = pos 0 -ℤ x

-- The loop over the rows of an entry, for one of the two amounts.
unfoldable pub net : (CashbookTransaction → ℤ) → List CashbookTransaction → ℤ
net amount [] = pos 0
net amount (r ∷ rs) = signed r.direction (amount r) +ℤ net amount rs

-- `if (net !== 0) adjustBalance(type, -net)`
abbrev pub undo_balance : BalanceType → ℤ → Tx Book Unit
undo_balance t net = when (not (eq_ℤ net (pos 0))) (adjust_balance t (pos 0 -ℤ net))

unfoldable pub undo_balances : ℤ → ℤ → Tx Book Unit
undo_balances s c =
    undo_balance BalanceType.shu s
    >> undo_balance BalanceType.capital c
    >> undo_balance BalanceType.total (s +ℤ c)

abbrev pub undo_rows : Tx Book Unit → List CashbookTransaction → Tx Book Unit
undo_rows soft_delete [] = pure tt
undo_rows soft_delete (r ∷ rs) =
    undo_balances (net (λ t. t.shu_amount) (r ∷ rs)) (net (λ t. t.capital_amount) (r ∷ rs))
    >> soft_delete

unfoldable pub delete_expense_transaction : ℕ → ℕ → Tx Book Unit
delete_expense_transaction now expense_id = do
  rows ← find_all_by_expense_id expense_id
  undo_rows (soft_delete_by_expense_id now expense_id) rows

unfoldable pub delete_income_transaction : ℕ → ℕ → Tx Book Unit
delete_income_transaction now income_id = do
  rows ← find_all_by_income_id income_id
  undo_rows (soft_delete_by_income_id now income_id) rows
