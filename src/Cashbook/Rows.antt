-- ===== src/Cashbook/Rows.antt =====
-- What the statements on `cashbook_transactions` do to the table.
use be_lumbung_mesari.Prelude.{
  pos, ◌+ℤ◌, ◌<ℤ◌, eq_ℤ-refl, ◌≡◌, refl, Bool, true, List, [], ◌∷◌, update_where, arith,
}
use be_lumbung_mesari.Exec.{ok}
use be_lumbung_mesari.Cashbook.Table.{
  Balances, Direction, inflow, outflow, CashbookTransaction, Book,
}
use be_lumbung_mesari.Cashbook.Trigger.{
  cashbook_insert_balance, cashbook_update_balance, same_direction,
}
use be_lumbung_mesari.Cashbook.Repository.{create_transaction, update_rows, update_transactions}

-- An insert that goes through has passed the check, fired the trigger and added one row.
pub record Inserted (row : CashbookTransaction) (k : Book) (r : CashbookTransaction) (k' : Book)
    : Type 0 where
  pub stored : r ≡ record row { id = k.next_id }
  pub rows : k'.transactions ≡ r ∷ k.transactions
  pub checked : pos 0 <ℤ row.shu_amount +ℤ row.capital_amount
  pub fired :
      cashbook_insert_balance row.direction row.shu_amount row.capital_amount k.balances
      ≡ ok (tt, k'.balances)

pub create_transaction-Inserted :
    (row : CashbookTransaction) (k : Book) (r : CashbookTransaction) (k' : Book)
    → create_transaction row k ≡ ok (r, k')
    → Inserted row k r k'
unfolding create_transaction
create_transaction-Inserted row k r k' h = ground arith

same_direction_refl : (d : Direction) → same_direction d d ≡ true
same_direction_refl inflow = refl
same_direction_refl outflow = refl

-- An UPDATE that leaves the amounts and the direction alone.
pub record KeepsAmounts (f : CashbookTransaction → CashbookTransaction) : Type 0 where
  pub direction : (r : CashbookTransaction) → (f r).direction ≡ r.direction
  pub shu : (r : CashbookTransaction) → (f r).shu_amount ≡ r.shu_amount
  pub capital : (r : CashbookTransaction) → (f r).capital_amount ≡ r.capital_amount

module _ (test : CashbookTransaction → Bool) (f : CashbookTransaction → CashbookTransaction)
    (keeps : KeepsAmounts f) where
  trigger_idle :
      (r : CashbookTransaction) (b : Balances) → cashbook_update_balance r (f r) b ≡ ok (tt, b)
  unfolding cashbook_update_balance
  trigger_idle r b =
      rw
        (keeps.direction r, keeps.shu r, keeps.capital r, eq_ℤ-refl, eq_ℤ-refl, same_direction_refl)

  -- moves no money
  update_rows-idle :
      (rs : List CashbookTransaction) (b : Balances)
      → update_rows test f rs b ≡ ok (update_where test f rs, b)
  unfolding update_rows
  update_rows-idle [] b = refl
  update_rows-idle (r ∷ rs) b = ground (arith, trigger_idle r b, update_rows-idle rs b)

  pub update_transactions-idle :
      (k : Book)
      → update_transactions test f k
        ≡ ok (tt, record k { transactions = update_where test f k.transactions })
  update_transactions-idle k = ground (arith, update_rows-idle k.transactions k.balances)
