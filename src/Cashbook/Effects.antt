-- ===== src/Cashbook/Effects.antt =====
-- What replacing an entry leaves in each fund.
use be_lumbung_mesari.Prelude.{
  ℕ, ℤ, pos, ◌+ℤ◌, ◌-ℤ◌, ◌≤ℤ◌, ◌≡◌, refl, ap, ◌∙◌, subst, Option, some, find, is_key, not, ◌&&◌,
  ◌==◌, inl, inr, Option-cases,
}
use be_lumbung_mesari.Exec.{ok, >>-eq-ok}
use be_lumbung_mesari.Cashbook.Table.{Balances, CashbookTransaction, Book}
use be_lumbung_mesari.Cashbook.Repository.{create_transaction, soft_delete_by_id, is_live}
use be_lumbung_mesari.Cashbook.Service.{replace_expense, update_expense_transaction}
use be_lumbung_mesari.Cashbook.Rows.{update_transactions-idle}
use be_lumbung_mesari.Cashbook.Ledger.{IsRow, IsConsistent, deletes_softly, find-IsRow}
use be_lumbung_mesari.Cashbook.Consistency.{
  create_transaction-IsConsistent, create_transaction-Moved,
}
use be_lumbung_mesari.Cashbook.Replacement.{soft_delete-IsConsistent}

-- The old amounts have come back, and the new ones have left.
pub record IsRespent (original : CashbookTransaction) (s c : ℤ) (b b' : Balances) : Type 0 where
  pub shu : b'.shu ≡ (b.shu +ℤ original.shu_amount) -ℤ s
  pub capital : b'.capital ≡ (b.capital +ℤ original.capital_amount) -ℤ c

module _ (o : Balances) (id : ℕ) (k : Book) (k' : Book) (con : IsConsistent o k)
    (original : CashbookTransaction) (row : IsRow original) (before : Balances)
    (date : Option ℕ) where
  replace_expense-IsRespent :
      (s c : ℤ)
      → pos 0 ≤ℤ s
      → pos 0 ≤ℤ c
      → replace_expense id s c date original before k ≡ ok (tt, k')
      → IsRespent original s c k.balances k'.balances
  replace_expense-IsRespent s c hs hc h =
      let ((r₁, k₁), e₁, h₁) = >>-eq-ok (create_transaction _) _ k (tt, k') h in
      let ((r₂, k₂), e₂, h₂) = >>-eq-ok (create_transaction _) _ k₁ (tt, k') h₁ in
      let c₁ =
        create_transaction-IsConsistent o _ k r₁ k₁
          (record {
            shu_nonneg = row.shu_nonneg;
            capital_nonneg = row.capital_nonneg;
            one_owner = inl refl;
          })
          refl con e₁ in
      let m₁ =
        create_transaction-Moved o _ k r₁ k₁
          (record {
            shu_nonneg = row.shu_nonneg;
            capital_nonneg = row.capital_nonneg;
            one_owner = inl refl;
          })
          refl con e₁ in
      let m₂ =
        create_transaction-Moved o _ k₁ r₂ k₂
          (record { shu_nonneg = hs; capital_nonneg = hc; one_owner = inl refl }) refl c₁ e₂ in
      let e : k₂ ≡ k' = cc h₂ in
      subst (λ (j : Book). IsRespent original s c k.balances j.balances) e
        (record {
          shu = m₂.shu ∙ ap (λ x. x -ℤ s) m₁.shu;
          capital = m₂.capital ∙ ap (λ x. x -ℤ c) m₁.capital;
        })

soft_delete-balances :
    (now id : ℕ) (k k' : Book) → soft_delete_by_id now id k ≡ ok (tt, k') → k'.balances ≡ k.balances
unfolding soft_delete_by_id
soft_delete-balances now id k k' h =
    cc (update_transactions-idle (λ r. r.id == id && is_live r) _ (deletes_softly now).amounts k, h)

-- Replacing the amounts of an expense, over a ledger behind the balances and by amounts that are not
-- negative, gives back the amounts of its latest entry and draws the new ones.
pub update_expense_transaction-IsRespent :
    (o : Balances) (now id : ℕ) (s c : ℤ) (date : Option ℕ) (k k' : Book)
    → pos 0 ≤ℤ s
    → pos 0 ≤ℤ c
    → IsConsistent o k
    → update_expense_transaction now id s c date k ≡ ok (tt, k')
    → (original : CashbookTransaction) × (find
          (λ r. is_key r.expense_id id && not r.is_reversal && is_live r)
          k.transactions
        ≡ some original)
      × IsRespent original s c k.balances k'.balances
unfolding update_expense_transaction
update_expense_transaction-IsRespent o now id s c date k k' hs hc con h =
    elim (Option-cases
      (find (λ r. is_key r.expense_id id && not r.is_reversal && is_live r) k.transactions)) [
        | inl none_found ↦ absurd (cc (rw none_found at h))
        | inr (original, found) ↦
            let row = find-IsRow _ k.transactions original con.rows found in
            let ((_, k₁), e₁, h₁) =
              >>-eq-ok (soft_delete_by_id now original.id) _ k (tt, k') (rw found at h) in
            (
              original,
              found,
              subst (λ b. IsRespent original s c b k'.balances)
                  (soft_delete-balances now original.id k k₁ e₁)
                  (replace_expense-IsRespent o id k₁ k'
                    (soft_delete-IsConsistent o now original.id k k₁ con e₁) original row k.balances
                    date s c hs hc h₁),
            )
      ]
