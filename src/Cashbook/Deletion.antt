-- ===== src/Cashbook/Deletion.antt =====
-- Deleting an entry and its owner keeps the ledger behind the balances.
use be_lumbung_mesari.Prelude.{
  ℕ, ℤ, pos, ◌+ℤ◌, ◌-ℤ◌, ◌≤ℤ◌, int_laws, ◌≡◌, refl, ap, subst, Bool, pos_part, neg_part, some, List,
  [], ◌∷◌, inl, inr, update_where, select, is_key, +ℤ-zero,
}
use be_lumbung_mesari.Exec.{ok, Tx, >>-eq-ok, ◌>>◌}
use be_lumbung_mesari.Cashbook.Table.{Balances, CashbookTransaction, Book}
use be_lumbung_mesari.Cashbook.Repository.{
  soft_delete_by_expense_id, soft_delete_by_income_id, release_expense, release_income,
  update_transactions,
}
use be_lumbung_mesari.Cashbook.Service.{
  net, undo_balances, undo_rows, delete_expense_transaction, delete_income_transaction,
}
use be_lumbung_mesari.Cashbook.Rows.{update_transactions-idle}
use be_lumbung_mesari.Cashbook.Replacement.{keeps_share, keeps_IsRow}
use be_lumbung_mesari.Cashbook.Undoing.{AllUndone, undo_balances-AllUndone}
use be_lumbung_mesari.Cashbook.Ledger.{
  IsRow, AreRows, IsConsistent, owned_sum, owned_sum-release_expense, owned_sum-release_income,
  without_expense, without_income, net-select-update, owned_sum-update, AreRows-update,
  deletes_softly,
}

-- The balances no longer hold what the rows of one owner moved.
record IsReversed (o : Balances) (test : CashbookTransaction → Bool) (k : Book) : Type 0 where
  shu_sum :
      k.balances.shu +ℤ net (λ r. r.shu_amount) (select test k.transactions)
      ≡ o.shu +ℤ owned_sum (λ r. r.shu_amount) k.transactions
  capital_sum :
      k.balances.capital +ℤ net (λ r. r.capital_amount) (select test k.transactions)
      ≡ o.capital +ℤ owned_sum (λ r. r.capital_amount) k.transactions
  total_sum : k.balances.total ≡ k.balances.shu +ℤ k.balances.capital
  shu_nonneg : pos 0 ≤ℤ k.balances.shu
  capital_nonneg : pos 0 ≤ℤ k.balances.capital
  rows : AreRows k.transactions

sum_reversed : (x' x n o s : ℤ) → x' ≡ x -ℤ n → x ≡ o +ℤ s → x' +ℤ n ≡ o +ℤ s
sum_reversed x' x n o s e h = rw (e, ← h) (omega int_laws)

cancel : (x n o s' s : ℤ) → x +ℤ n ≡ o +ℤ s → s' +ℤ n ≡ s → x ≡ o +ℤ s'
cancel x n o s' s e f = let e' = rw (← f) at e in omega (int_laws, ap pos_part e', ap neg_part e')

updated_sum :
    (q : CashbookTransaction → Bool) (now : ℕ) (amount : CashbookTransaction → ℤ)
    → ((r : CashbookTransaction) → amount (record r { deleted_at = some now }) ≡ amount r)
    → (rs : List CashbookTransaction)
    → owned_sum amount (update_where q (λ r. record r { deleted_at = some now }) rs)
      ≡ owned_sum amount rs
updated_sum q now amount e =
    owned_sum-update q _ amount (keeps_share amount _ (deletes_softly now) e)

module _ (o : Balances) (test : CashbookTransaction → Bool) where
  reverse_all :
      (k k' : Book)
      → IsConsistent o k
      → AllUndone
          (net (λ r. r.shu_amount) (select test k.transactions))
          (net (λ r. r.capital_amount) (select test k.transactions))
          k
          k'
      → IsReversed o test k'
  reverse_all k k' c u = record {
    shu_sum = rw u.rows (sum_reversed _ _ _ _ _ u.shu c.shu_sum);
    capital_sum = rw u.rows (sum_reversed _ _ _ _ _ u.capital c.capital_sum);
    total_sum = rw (u.shu, u.capital, u.total, c.total_sum) (omega int_laws);
    shu_nonneg = u.shu_nonneg c.shu_nonneg;
    capital_nonneg = u.capital_nonneg c.capital_nonneg;
    rows = rw u.rows c.rows;
  }

  -- There is nothing to reverse.
  reverse_none :
      (k : Book) → IsConsistent o k → select test k.transactions ≡ [] → IsReversed o test k
  unfolding net
  reverse_none k c e = record {
    shu_sum = rw (e, +ℤ-zero) c.shu_sum;
    capital_sum = rw (e, +ℤ-zero) c.capital_sum;
    total_sum = c.total_sum;
    shu_nonneg = c.shu_nonneg;
    capital_nonneg = c.capital_nonneg;
    rows = c.rows;
  }

  undo_rows-IsReversed :
      (m : Tx Book Unit) (k k' : Book)
      → ((j j' : Book) → IsReversed o test j → m j ≡ ok (tt, j') → IsReversed o test j')
      → IsConsistent o k
      → undo_rows m (select test k.transactions) k ≡ ok (tt, k')
      → IsReversed o test k'
  undo_rows-IsReversed m k k' keep c h = split (select test k.transactions) refl
    where
      split :
          (rs : List CashbookTransaction) → select test k.transactions ≡ rs → IsReversed o test k'
      split [] e = subst (IsReversed o test) (cc (rw e at h)) (reverse_none k c e)
      split (r ∷ rs) e =
          let ((_, k₁), e₁, h₁) = >>-eq-ok (undo_balances _ _) m k (tt, k') (rw e at h) in
          keep k₁ k' (reverse_all k k₁ c (rw e (undo_balances-AllUndone _ _ k k₁ e₁))) h₁

  -- Freeing the rows takes what is missing out of the sum.
  release-IsConsistent :
      (f : CashbookTransaction → CashbookTransaction)
      → ((amount : CashbookTransaction → ℤ) (rs : List CashbookTransaction)
          → AreRows rs
          → owned_sum amount (update_where test f rs) +ℤ net amount (select test rs)
            ≡ owned_sum amount rs)
      → ((r : CashbookTransaction) → IsRow r → IsRow (f r))
      → (k : Book) → IsReversed o test k
      → IsConsistent o (record k { transactions = update_where test f k.transactions })
  release-IsConsistent f freed keep k c = record {
    shu_sum = cancel _ _ _ _ _ (c.shu_sum) (freed (λ r. r.shu_amount) k.transactions c.rows);
    capital_sum =
        cancel _ _ _ _ _ (c.capital_sum) (freed (λ r. r.capital_amount) k.transactions c.rows);
    total_sum = c.total_sum;
    shu_nonneg = c.shu_nonneg;
    capital_nonneg = c.capital_nonneg;
    rows = AreRows-update test f keep k.transactions c.rows;
  }

  updated-IsReversed :
      (q : CashbookTransaction → Bool) (now : ℕ)
      → ((r : CashbookTransaction) → test (record r { deleted_at = some now }) ≡ test r)
      → (k k' : Book) → IsReversed o test k
      → update_transactions q (λ r. record r { deleted_at = some now }) k ≡ ok (tt, k')
      → IsReversed o test k'
  updated-IsReversed q now blind k k' c h =
      let keeps = deletes_softly now in
      let deleted = λ (r : CashbookTransaction). record r { deleted_at = some now } in
      subst (IsReversed o test)
        {x = record k { transactions = update_where q deleted k.transactions }}
        (cc (update_transactions-idle q deleted keeps.amounts k, h))
        (record {
          shu_sum =
              rw
                (
                  net-select-update test q deleted (λ r. r.shu_amount) blind (λ r. refl) (λ r. refl)
                      k.transactions,
                  updated_sum q now (λ r. r.shu_amount) (λ r. refl) k.transactions,
                )
                c.shu_sum;
          capital_sum =
              rw
                (
                  net-select-update test q deleted (λ r. r.capital_amount) blind (λ r. refl)
                      (λ r. refl) k.transactions,
                  updated_sum q now (λ r. r.capital_amount) (λ r. refl) k.transactions,
                )
                c.capital_sum;
          total_sum = c.total_sum;
          shu_nonneg = c.shu_nonneg;
          capital_nonneg = c.capital_nonneg;
          rows = AreRows-update q deleted (keeps_IsRow deleted keeps) k.transactions c.rows;
        })

releases_expense : (id : ℕ) (r : CashbookTransaction) → IsRow r → IsRow (without_expense r)
releases_expense id r v = record {
  shu_nonneg = v.shu_nonneg;
  capital_nonneg = v.capital_nonneg;
  one_owner = inr refl;
}

releases_income : (id : ℕ) (r : CashbookTransaction) → IsRow r → IsRow (without_income r)
releases_income id r v = record {
  shu_nonneg = v.shu_nonneg;
  capital_nonneg = v.capital_nonneg;
  one_owner = inl refl;
}

-- Deleting the transactions of an expense, and then the expense, keeps the ledger behind the
-- balances.
pub delete_expense-IsConsistent :
    (o : Balances) (now id : ℕ) (k k' : Book)
    → IsConsistent o k
    → (delete_expense_transaction now id >> release_expense id) k ≡ ok (tt, k')
    → IsConsistent o k'
unfolding delete_expense_transaction release_expense soft_delete_by_expense_id
delete_expense-IsConsistent o now id k k' c h =
    let test = λ (r : CashbookTransaction). is_key r.expense_id id in
    let ((_, k₁), e₁, h₁) =
      >>-eq-ok (delete_expense_transaction now id) (release_expense id) k (tt, k') h in
    let reversed =
      undo_rows-IsReversed o test (soft_delete_by_expense_id now id) k k₁
        (updated-IsReversed o test _ now (λ r. refl)) c e₁ in
    subst (IsConsistent o)
      (cc (
        update_transactions-idle test without_expense
            (record { direction = λ r. refl; shu = λ r. refl; capital = λ r. refl }) k₁,
        h₁,
      ))
      (release-IsConsistent o test without_expense (owned_sum-release_expense id)
        (releases_expense id) k₁ reversed)

-- Deleting the transactions of an income, and then the income, keeps the ledger behind the
-- balances.
delete_income-IsConsistent :
    (o : Balances) (now id : ℕ) (k k' : Book)
    → IsConsistent o k
    → (delete_income_transaction now id >> release_income id) k ≡ ok (tt, k')
    → IsConsistent o k'
unfolding delete_income_transaction release_income soft_delete_by_income_id
delete_income-IsConsistent o now id k k' c h =
    let test = λ (r : CashbookTransaction). is_key r.income_id id in
    let ((_, k₁), e₁, h₁) =
      >>-eq-ok (delete_income_transaction now id) (release_income id) k (tt, k') h in
    let reversed =
      undo_rows-IsReversed o test (soft_delete_by_income_id now id) k k₁
        (updated-IsReversed o test _ now (λ r. refl)) c e₁ in
    subst (IsConsistent o)
      (cc (
        update_transactions-idle test without_income
            (record { direction = λ r. refl; shu = λ r. refl; capital = λ r. refl }) k₁,
        h₁,
      ))
      (release-IsConsistent o test without_income (owned_sum-release_income id) (releases_income id)
        k₁ reversed)
