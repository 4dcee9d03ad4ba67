-- ===== src/Cashbook/Replacement.antt =====
-- Replacing an entry keeps the ledger behind the balances.
use be_lumbung_mesari.Prelude.{
  ℕ, ℤ, pos, ◌≤ℤ◌, ◌≡◌, refl, subst, Bool, Option, inl, inr, update_where, find, Option-cases,
  is_key, not, ◌&&◌, ◌==◌,
}
use be_lumbung_mesari.Exec.{ok, >>-eq-ok}
use be_lumbung_mesari.Cashbook.Table.{Balances, CashbookTransaction, Book}
use be_lumbung_mesari.Cashbook.Repository.{create_transaction, soft_delete_by_id, is_live}
use be_lumbung_mesari.Cashbook.Service.{
  IncomeDestination, replace_expense, replace_income, update_expense_transaction,
  update_income_transaction,
}
use be_lumbung_mesari.Cashbook.Rows.{create_transaction-Inserted, update_transactions-idle}
use be_lumbung_mesari.Cashbook.Ledger.{
  IsRow, IsConsistent, KeepsRow, owned_sum-update, AreRows-update, deletes_softly, find-IsRow,
  share,
}
use be_lumbung_mesari.Cashbook.Consistency.{
  create_transaction-IsConsistent, Inserted-IsConsistent, part_nonneg,
}

-- An UPDATE that leaves amounts and owners alone keeps it.
pub keeps_share :
    (amount : CashbookTransaction → ℤ) (f : CashbookTransaction → CashbookTransaction)
    → KeepsRow f
    → ((r : CashbookTransaction) → amount (f r) ≡ amount r)
    → (r : CashbookTransaction) → share amount (f r) ≡ share amount r
unfolding share
keeps_share amount f keeps e r =
    rw (e r, keeps.income r, keeps.expense r, keeps.amounts.direction r)

pub keeps_IsRow :
    (f : CashbookTransaction → CashbookTransaction)
    → KeepsRow f
    → (r : CashbookTransaction) → IsRow r
    → IsRow (f r)
keeps_IsRow f keeps r v = record {
  shu_nonneg = rw (keeps.amounts.shu r) v.shu_nonneg;
  capital_nonneg = rw (keeps.amounts.capital r) v.capital_nonneg;
  one_owner = rw (keeps.income r, keeps.expense r) v.one_owner;
}

module _ (test : CashbookTransaction → Bool) (f : CashbookTransaction → CashbookTransaction)
    (keeps : KeepsRow f) (o : Balances) where
  updated-IsConsistent :
      (k : Book)
      → IsConsistent o k
      → IsConsistent o (record k { transactions = update_where test f k.transactions })
  updated-IsConsistent k c = record {
    shu_sum =
        rw
          (owned_sum-update test f (λ t. t.shu_amount) (keeps_share _ f keeps keeps.amounts.shu)
            k.transactions)
          c.shu_sum;
    capital_sum =
        rw
          (owned_sum-update test f (λ t. t.capital_amount)
            (keeps_share _ f keeps keeps.amounts.capital) k.transactions)
          c.capital_sum;
    total_sum = c.total_sum;
    shu_nonneg = c.shu_nonneg;
    capital_nonneg = c.capital_nonneg;
    rows = AreRows-update test f (keeps_IsRow f keeps) k.transactions c.rows;
  }

module _ (o : Balances) (id : ℕ) (k : Book) (k' : Book) (con : IsConsistent o k)
    (original : CashbookTransaction) (row : IsRow original) (before : Balances)
    (date : Option ℕ) where
  replace_expense-IsConsistent :
      (s c : ℤ)
      → pos 0 ≤ℤ s
      → pos 0 ≤ℤ c
      → replace_expense id s c date original before k ≡ ok (tt, k')
      → IsConsistent o k'
  replace_expense-IsConsistent s c hs hc h =
      let ((r₁, k₁), e₁, h₁) = >>-eq-ok (create_transaction _) _ k (tt, k') h in
      let ((r₂, k₂), e₂, h₂) = >>-eq-ok (create_transaction _) _ k₁ (tt, k') h₁ in
      let c₁ =
        create_transaction-IsConsistent o _ k r₁ k₁
          (record {
            shu_nonneg = row.shu_nonneg;
            capital_nonneg = row.capital_nonneg;
            one_owner = inl refl;
          })
          refl con e₁ in
      subst (IsConsistent o) (cc h₂) (
        create_transaction-IsConsistent o _ k₁ r₂ k₂
          (record { shu_nonneg = hs; capital_nonneg = hc; one_owner = inl refl }) refl c₁ e₂)

  replace_income-IsConsistent :
      (amount : ℤ) (d : IncomeDestination)
      → replace_income id amount d date original before k ≡ ok (tt, k')
      → IsConsistent o k'
  replace_income-IsConsistent amount d h =
      let ((r₁, k₁), e₁, h₁) = >>-eq-ok (create_transaction _) _ k (tt, k') h in
      let ((r₂, k₂), e₂, h₂) = >>-eq-ok (create_transaction _) _ k₁ (tt, k') h₁ in
      let c₁ =
        create_transaction-IsConsistent o _ k r₁ k₁
          (record {
            shu_nonneg = row.shu_nonneg;
            capital_nonneg = row.capital_nonneg;
            one_owner = inr refl;
          })
          refl con e₁ in
      let i = create_transaction-Inserted _ k₁ r₂ k₂ e₂ in
      let p = part_nonneg d amount i.checked in
      subst (IsConsistent o) (cc h₂) (
        Inserted-IsConsistent o _ k₁ r₂ k₂
          (record { shu_nonneg = p.0; capital_nonneg = p.1; one_owner = inr refl }) refl c₁ i)

pub soft_delete-IsConsistent :
    (o : Balances) (now id : ℕ) (k k' : Book)
    → IsConsistent o k
    → soft_delete_by_id now id k ≡ ok (tt, k')
    → IsConsistent o k'
unfolding soft_delete_by_id
soft_delete-IsConsistent o now id k k' c h =
    let keeps = deletes_softly now in
    subst (IsConsistent o)
      (cc (update_transactions-idle (λ r. r.id == id && is_live r) _ keeps.amounts k, h))
      (updated-IsConsistent (λ r. r.id == id && is_live r) _ keeps o k c)

-- Replacing the amounts of an expense by amounts that are not negative keeps the ledger behind the
-- balances.
pub update_expense_transaction-IsConsistent :
    (o : Balances) (now id : ℕ) (s c : ℤ) (date : Option ℕ) (k k' : Book)
    → pos 0 ≤ℤ s
    → pos 0 ≤ℤ c
    → IsConsistent o k
    → update_expense_transaction now id s c date k ≡ ok (tt, k')
    → IsConsistent o k'
unfolding update_expense_transaction
update_expense_transaction-IsConsistent o now id s c date k k' hs hc con h =
    elim (Option-cases
      (find (λ r. is_key r.expense_id id && not r.is_reversal && is_live r) k.transactions)) [
        | inl none_found ↦ absurd (cc (rw none_found at h))
        | inr (original, found) ↦
            let row = find-IsRow _ k.transactions original con.rows found in
            let ((_, k₁), e₁, h₁) =
              >>-eq-ok (soft_delete_by_id now original.id) _ k (tt, k') (rw found at h) in
            replace_expense-IsConsistent o id k₁ k'
              (soft_delete-IsConsistent o now original.id k k₁ con e₁) original row k.balances date
              s c hs hc h₁
      ]

-- Replacing the amount and the destination of an income keeps the ledger behind the balances.
update_income_transaction-IsConsistent :
    (o : Balances) (now id : ℕ) (amount : ℤ) (d : IncomeDestination) (date : Option ℕ) (k k' : Book)
    → IsConsistent o k
    → update_income_transaction now id amount d date k ≡ ok (tt, k')
    → IsConsistent o k'
unfolding update_income_transaction
update_income_transaction-IsConsistent o now id amount d date k k' con h =
    elim (Option-cases
      (find (λ r. is_key r.income_id id && not r.is_reversal && is_live r) k.transactions)) [
        | inl none_found ↦ absurd (cc (rw none_found at h))
        | inr (original, found) ↦
            let row = find-IsRow _ k.transactions original con.rows found in
            let ((_, k₁), e₁, h₁) =
              >>-eq-ok (soft_delete_by_id now original.id) _ k (tt, k') (rw found at h) in
            replace_income-IsConsistent o id k₁ k'
              (soft_delete-IsConsistent o now original.id k k₁ con e₁) original row k.balances date
              amount d h₁
      ]
