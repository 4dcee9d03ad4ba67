-- ===== src/Cashbook/Table.antt =====
-- The tables `cashbook_balances` and `cashbook_transactions`, from
-- src/cashbook/interfaces/transaction.interface.ts and src/database/migrations.
-- Amounts are counted in ten-thousandths of a rupiah, the scale of the DECIMAL(12, 4) columns.
use be_lumbung_mesari.Prelude.{
  ℕ, ◌^◌, ℤ, pos, ◌+ℤ◌, ◌-ℤ◌, ltb_ℤ, leb_ℤ, Bool, Option, List, if◌then◌else◌,
}
use be_lumbung_mesari.Exec.{ok, err, database, negative_balance, numeric_overflow, Tx}

pub data BalanceType : Type 0 where
  shu capital total : BalanceType

-- The three rows of `cashbook_balances`.
pub record Balances : Type 0 where
  pub shu : ℤ
  pub capital : ℤ
  pub total : ℤ

-- Money comes in or goes out.
pub data Direction : Type 0 where
  inflow outflow : Direction

pub record CashbookTransaction : Type 0 where
  pub id : ℕ
  pub txn_date : ℕ
  pub direction : Direction
  pub shu_amount : ℤ
  pub capital_amount : ℤ
  pub shu_balance_before : ℤ
  pub shu_balance_after : ℤ
  pub capital_balance_before : ℤ
  pub capital_balance_after : ℤ
  pub total_balance_before : ℤ
  pub total_balance_after : ℤ
  pub income_id : Option ℕ
  pub expense_id : Option ℕ
  pub is_reversal : Bool
  pub reversal_of : Option ℕ
  pub deleted_at : Option ℕ

-- The newest transaction stands first; `next_id` is the key that the database draws next.
pub record Book : Type 0 where
  pub balances : Balances
  pub transactions : List CashbookTransaction
  pub next_id : ℕ

abbrev pub balance_of : BalanceType → Balances → ℤ
balance_of shu b = b.shu
balance_of capital b = b.capital
balance_of total b = b.total

abbrev pub with_balance : BalanceType → ℤ → Balances → Balances
with_balance shu x b = record b { shu = x }
with_balance capital x b = record b { capital = x }
with_balance total x b = record b { total = x }

-- The first amount that DECIMAL(12, 4) does not hold.
abbrev pub decimal_limit : ℤ
decimal_limit = pos (10 ^ 12)

-- `UPDATE cashbook_balances SET balance = x WHERE type = t`, under the CHECK of the table.
unfoldable pub write_balance : BalanceType → ℤ → Tx Balances Unit
write_balance t x b =
    if ltb_ℤ x (pos 0)
    then err (database negative_balance)
    else if leb_ℤ decimal_limit x
    then err (database numeric_overflow)
    else ok (tt, with_balance t x b)

abbrev pub add_balance : BalanceType → ℤ → Tx Balances Unit
add_balance t amount b = write_balance t (balance_of t b +ℤ amount) b

abbrev pub subtract_balance : BalanceType → ℤ → Tx Balances Unit
subtract_balance t amount b = write_balance t (balance_of t b -ℤ amount) b
