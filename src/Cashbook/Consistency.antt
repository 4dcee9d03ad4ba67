-- ===== src/Cashbook/Consistency.antt =====
-- Every method of the service keeps the ledger behind the balances (IsConsistent).
use be_lumbung_mesari.Prelude.{
  ℕ, ℤ, pos, ◌+ℤ◌, ◌≤ℤ◌, ◌<ℤ◌, int_laws, ◌≡◌, refl, true, Option, inl, inr,
}
use be_lumbung_mesari.Exec.{ok}
use be_lumbung_mesari.Cashbook.Table.{
  Balances, Direction, inflow, outflow, CashbookTransaction, Book,
}
use be_lumbung_mesari.Cashbook.Repository.{create_transaction}
use be_lumbung_mesari.Cashbook.Service.{
  IncomeDestination, shu, capital, shu_part, capital_part, signed, create_income_transaction,
  create_expense_transaction,
}
use be_lumbung_mesari.Cashbook.Movement.{Moved, moved, insert-Moved}
use be_lumbung_mesari.Cashbook.Rows.{Inserted, create_transaction-Inserted}
use be_lumbung_mesari.Cashbook.Ledger.{IsRow, IsConsistent, is_owned, share, owned_sum}

moved-signed : (d : Direction) (x a : ℤ) → moved d x a ≡ x +ℤ signed d a
moved-signed inflow x a = refl
moved-signed outflow x a = omega int_laws

-- A fund after one more owned row.
fund_grows :
    (d : Direction) (fund' fund a o sum : ℤ)
    → fund' ≡ moved d fund a
    → fund ≡ o +ℤ sum
    → fund' ≡ o +ℤ (signed d a +ℤ sum)
fund_grows d fund' fund a o sum e h = rw (e, moved-signed, h) (omega int_laws)

total_grows :
    (d : Direction) (t' s' c' t s c a b : ℤ)
    → t' ≡ moved d t (a +ℤ b)
    → s' ≡ moved d s a
    → c' ≡ moved d c b
    → t ≡ s +ℤ c
    → t' ≡ s' +ℤ c'
total_grows inflow t' s' c' t s c a b e₁ e₂ e₃ h = rw (e₁, e₂, e₃, h) (omega int_laws)
total_grows outflow t' s' c' t s c a b e₁ e₂ e₃ h = rw (e₁, e₂, e₃, h) (omega int_laws)

share_owned :
    (amount : CashbookTransaction → ℤ) (r : CashbookTransaction)
    → is_owned r ≡ true
    → share amount r ≡ signed r.direction (amount r)
unfolding share
share_owned amount r h = rw h

module _ (o : Balances) (row : CashbookTransaction) (k : Book) (r : CashbookTransaction) (k' : Book)
    (row_ok : IsRow row) (owned : is_owned row ≡ true) (c : IsConsistent o k) where
  pub Inserted-IsConsistent : Inserted row k r k' → IsConsistent o k'
  unfolding owned_sum
  Inserted-IsConsistent i =
      let m =
        insert-Moved row.direction row.shu_amount row.capital_amount k.balances k'.balances
          row_ok.shu_nonneg row_ok.capital_nonneg c.shu_nonneg c.capital_nonneg i.fired in
      let stored = record row { id = k.next_id } in
      record {
        shu_sum =
            rw (i.rows, i.stored, share_owned (λ t. t.shu_amount) stored owned)
              (fund_grows row.direction _ _ _ _ _ m.shu c.shu_sum);
        capital_sum =
            rw (i.rows, i.stored, share_owned (λ t. t.capital_amount) stored owned)
              (fund_grows row.direction _ _ _ _ _ m.capital c.capital_sum);
        total_sum = total_grows row.direction _ _ _ _ _ _ _ _ m.total m.shu m.capital c.total_sum;
        shu_nonneg = m.shu_nonneg;
        capital_nonneg = m.capital_nonneg;
        rows =
            rw (i.rows, i.stored)
              (
                record {
                  shu_nonneg = row_ok.shu_nonneg;
                  capital_nonneg = row_ok.capital_nonneg;
                  one_owner = row_ok.one_owner;
                },
                c.rows,
              );
      }

  pub create_transaction-IsConsistent : create_transaction row k ≡ ok (r, k') → IsConsistent o k'
  create_transaction-IsConsistent h =
      Inserted-IsConsistent (create_transaction-Inserted row k r k' h)

  -- What the row moves.
  pub create_transaction-Moved :
      create_transaction row k ≡ ok (r, k')
      → Moved row.direction row.shu_amount row.capital_amount k.balances k'.balances
  create_transaction-Moved h =
      insert-Moved row.direction row.shu_amount row.capital_amount k.balances k'.balances
        row_ok.shu_nonneg row_ok.capital_nonneg c.shu_nonneg c.capital_nonneg
        (create_transaction-Inserted row k r k' h).fired

pub part_nonneg :
    (d : IncomeDestination) (amount : ℤ)
    → pos 0 <ℤ shu_part d amount +ℤ capital_part d amount
    → (pos 0 ≤ℤ shu_part d amount) × (pos 0 ≤ℤ capital_part d amount) × (pos 0 <ℤ amount)
part_nonneg shu amount h = omega int_laws
part_nonneg capital amount h = omega int_laws

-- Recording an income that goes through keeps the ledger behind the balances, whatever its amount
-- and its destination.
pub create_income_transaction-IsConsistent :
    (o : Balances) (now id : ℕ) (amount : ℤ) (d : IncomeDestination) (date : Option ℕ) (k : Book)
    (r : CashbookTransaction) (k' : Book)
    → IsConsistent o k
    → create_income_transaction now id amount d date k ≡ ok (r, k')
    → IsConsistent o k'
unfolding create_income_transaction
create_income_transaction-IsConsistent o now id amount d date k r k' c h =
    let i = create_transaction-Inserted _ k r k' h in
    let p = part_nonneg d amount i.checked in
    Inserted-IsConsistent o _ k r k'
      (record { shu_nonneg = p.0; capital_nonneg = p.1; one_owner = inr refl }) refl c i

-- Recording an expense of amounts that are not negative keeps the ledger behind the balances.
pub create_expense_transaction-IsConsistent :
    (o : Balances) (now id : ℕ) (s c : ℤ) (date : Option ℕ) (k : Book) (r : CashbookTransaction)
    (k' : Book)
    → pos 0 ≤ℤ s
    → pos 0 ≤ℤ c
    → IsConsistent o k
    → create_expense_transaction now id s c date k ≡ ok (r, k')
    → IsConsistent o k'
unfolding create_expense_transaction
create_expense_transaction-IsConsistent o now id s c date k r k' hs hc con h =
    create_transaction-IsConsistent o _ k r k'
      (record { shu_nonneg = hs; capital_nonneg = hc; one_owner = inl refl }) refl con h

-- The funds after an income: its amount has come to the fund of its destination.
pub create_income_transaction-Moved :
    (o : Balances) (now id : ℕ) (amount : ℤ) (d : IncomeDestination) (date : Option ℕ) (k : Book)
    (r : CashbookTransaction) (k' : Book)
    → IsConsistent o k
    → create_income_transaction now id amount d date k ≡ ok (r, k')
    → Moved inflow (shu_part d amount) (capital_part d amount) k.balances k'.balances
unfolding create_income_transaction
create_income_transaction-Moved o now id amount d date k r k' c h =
    let i = create_transaction-Inserted _ k r k' h in
    let p = part_nonneg d amount i.checked in
    insert-Moved inflow (shu_part d amount) (capital_part d amount) k.balances k'.balances p.0 p.1
      c.shu_nonneg c.capital_nonneg i.fired

-- The funds after an expense: its amounts have left them.
pub create_expense_transaction-Moved :
    (o : Balances) (now id : ℕ) (s c : ℤ) (date : Option ℕ) (k : Book) (r : CashbookTransaction)
    (k' : Book)
    → pos 0 ≤ℤ s
    → pos 0 ≤ℤ c
    → IsConsistent o k
    → create_expense_transaction now id s c date k ≡ ok (r, k')
    → Moved outflow s c k.balances k'.balances
unfolding create_expense_transaction
create_expense_transaction-Moved o now id s c date k r k' hs hc con h =
    let i = create_transaction-Inserted _ k r k' h in
    insert-Moved outflow s c k.balances k'.balances hs hc con.shu_nonneg con.capital_nonneg i.fired
