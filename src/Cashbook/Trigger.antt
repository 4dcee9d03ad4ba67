-- ===== src/Cashbook/Trigger.antt =====
-- The triggers of `cashbook_transactions`, which keep `cashbook_balances`
-- (src/database/migrations/20251121120850_create_cashbook_triggers.ts, and for inserts
-- src/database/migrations/20260405101911_add_cashbook_balance_guard.ts).
use be_lumbung_mesari.Prelude.{
  ℤ, pos, ◌+ℤ◌, ltb_ℤ, eq_ℤ, Bool, true, false, not, ◌&&◌, ◌||◌, if◌then◌else◌,
}
use be_lumbung_mesari.Exec.{
  err, database, insufficient_shu, insufficient_capital, Tx, throw_if, when, ◌>>◌,
}
use be_lumbung_mesari.Cashbook.Table.{
  shu, capital, total, Balances, Direction, inflow, outflow, CashbookTransaction, add_balance,
  subtract_balance,
}

abbrev pub is_positive : ℤ → Bool
is_positive x = ltb_ℤ (pos 0) x

-- The three UPDATE statements of an income's branch.
abbrev pub add_amounts : ℤ → ℤ → Tx Balances Unit
add_amounts s c =
    when (is_positive s) (add_balance shu s)
    >> when (is_positive c) (add_balance capital c)
    >> add_balance total (s +ℤ c)

-- The three UPDATE statements of an expense's branch.
abbrev pub subtract_amounts : ℤ → ℤ → Tx Balances Unit
subtract_amounts s c =
    when (is_positive s) (subtract_balance shu s)
    >> when (is_positive c) (subtract_balance capital c)
    >> subtract_balance total (s +ℤ c)

-- The guard on an expense: a balance that is drawn on covers what is drawn.
abbrev pub guard_amounts : ℤ → ℤ → Tx Balances Unit
guard_amounts s c b =
    if is_positive s && ltb_ℤ b.shu s
    then err (database insufficient_shu)
    else throw_if (is_positive c && ltb_ℤ b.capital c) (database insufficient_capital) b

unfoldable pub cashbook_insert_balance : Direction → ℤ → ℤ → Tx Balances Unit
cashbook_insert_balance inflow s c = add_amounts s c
cashbook_insert_balance outflow s c = guard_amounts s c >> subtract_amounts s c

abbrev pub reverse_amounts : Direction → ℤ → ℤ → Tx Balances Unit
reverse_amounts inflow s c = subtract_amounts s c
reverse_amounts outflow s c = add_amounts s c

abbrev pub apply_amounts : Direction → ℤ → ℤ → Tx Balances Unit
apply_amounts inflow s c = add_amounts s c
apply_amounts outflow s c = subtract_amounts s c

abbrev pub same_direction : Direction → Direction → Bool
same_direction inflow inflow = true
same_direction outflow outflow = true
same_direction _ _ = false

unfoldable pub cashbook_update_balance :
    CashbookTransaction → CashbookTransaction → Tx Balances Unit
cashbook_update_balance old new =
    when
      (not (eq_ℤ old.shu_amount new.shu_amount)
        || not (eq_ℤ old.capital_amount new.capital_amount)
        || not (same_direction old.direction new.direction))
      (reverse_amounts old.direction old.shu_amount old.capital_amount
        >> apply_amounts new.direction new.shu_amount new.capital_amount)
