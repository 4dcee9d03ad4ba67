-- ===== src/Expenses/Allocation.antt =====
-- `allocateAmounts` (src/expenses/expenses.service.ts): how an expense is split over the funds.
use be_lumbung_mesari.Prelude.{ℤ, pos, ◌+ℤ◌, ◌-ℤ◌, ltb_ℤ, leb_ℤ, Option, none, some, if◌then◌else◌}
use be_lumbung_mesari.Exec.{Result, ok, err, insufficient_funds, validation, Tx}
use be_lumbung_mesari.Cashbook.{Book}
use be_lumbung_mesari.Db.{ExpenseSource, auto, total, capital, shu}

pub record Allocation : Type 0 where
  pub shu_amount : ℤ
  pub capital_amount : ℤ

abbrev pub from_capital : ℤ → Allocation
from_capital amount = record { shu_amount = pos 0; capital_amount = amount }

-- Capital is used up first.
abbrev pub spill_over : ℤ → ℤ → Allocation
spill_over amount capital_balance = record {
  shu_amount = amount -ℤ capital_balance;
  capital_amount = capital_balance;
}

-- The `switch` on the source, over the two balances.
unfoldable pub allocate : Option ExpenseSource → ℤ → ℤ → ℤ → Result Allocation
allocate (some shu) amount shu_balance capital_balance =
    if ltb_ℤ shu_balance amount
    then err insufficient_funds
    else ok (record { shu_amount = amount; capital_amount = pos 0 })
allocate (some capital) amount shu_balance capital_balance =
    if ltb_ℤ capital_balance amount then err insufficient_funds else ok (from_capital amount)
allocate (some total) amount shu_balance capital_balance =
    if ltb_ℤ (shu_balance +ℤ capital_balance) amount
    then err insufficient_funds
    else if leb_ℤ amount capital_balance
    then ok (from_capital amount)
    else ok (spill_over amount capital_balance)
allocate (some auto) amount shu_balance capital_balance =
    if leb_ℤ amount capital_balance
    then ok (from_capital amount)
    else if leb_ℤ amount (shu_balance +ℤ capital_balance)
    then ok (spill_over amount capital_balance)
    else err insufficient_funds
allocate none amount shu_balance capital_balance = err validation

-- The amounts that an update gives back before it draws anew.
pub record Restore : Type 0 where
  pub restore_shu : ℤ
  pub restore_capital : ℤ

abbrev pub no_restore : Restore
no_restore = record { restore_shu = pos 0; restore_capital = pos 0 }

abbrev pub allocate_amounts : ℤ → Option ExpenseSource → Restore → Tx Book Allocation
allocate_amounts amount source restore k =
    elim (allocate source amount (k.balances.shu +ℤ restore.restore_shu)
      (k.balances.capital +ℤ restore.restore_capital)) [ ok a ↦ ok (a, k) | err e ↦ err e ]
