-- ===== src/Expenses/Books.antt =====
-- The expenses and the cashbook stay in step.
use be_lumbung_mesari.Prelude.{
  ℕ, ◌+◌, ℤ, pos, ◌+ℤ◌, ◌≤ℤ◌, +ℤ-zero, ◌≡◌, ap, ◌∙◌, subst, inl, inr, Option, some, ◌∷◌, arith,
  Option-cases,
}
use be_lumbung_mesari.Exec.{ok, ok-injective, pure, >>=-eq-ok, >>-eq-ok}
use be_lumbung_mesari.Cashbook.{Balances, CashbookTransaction, create_expense_transaction}
use be_lumbung_mesari.Cashbook.Ledger.{IsConsistent}
use be_lumbung_mesari.Cashbook.Consistency.{create_expense_transaction-IsConsistent}
use be_lumbung_mesari.Db.{ExpenseSource, ExpenseCategory, Expense, Db, in_book, in_book-eq-ok}
use be_lumbung_mesari.Expenses.Allocation.{
  Allocation, Restore, no_restore, allocate, allocate_amounts,
}
use be_lumbung_mesari.Expenses.Split.{IsSplit, allocate-IsSplit}
use be_lumbung_mesari.Expenses.Service.{
  CreateExpenseDto, or_value, find_category, insert_expense, write_expense, new_expense,
  create_expense_in_transaction,
}

-- The amounts of an expense.
abbrev pub amounts_of : Expense → Allocation
amounts_of e = record { shu_amount = e.shu_amount; capital_amount = e.capital_amount }

-- What an expense that went through leaves: its amounts are an allocation of the funds before, its
-- row and its entry in the book are all that is new.
pub record Created (now : ℕ) (dto : CreateExpenseDto) (s : Db) (e : Expense) (s' : Db)
    : Type 0 where
  pub split : IsSplit dto.amount s.book.balances.shu s.book.balances.capital (amounts_of e)
  pub default_source : ExpenseSource
  pub chosen :
      allocate
        (some (or_value dto.source default_source))
        dto.amount
        s.book.balances.shu
        s.book.balances.capital
      ≡ ok (amounts_of e)
  pub entry : CashbookTransaction
  pub booked :
      create_expense_transaction now e.id e.shu_amount e.capital_amount (some e.txn_date) s.book
      ≡ ok (entry, s'.book)
  pub rows : s' ≡ record s { book = s'.book; expenses = e ∷ s.expenses; next_id = s.next_id + 1 }

pub allocated :
    (x : ℤ) (source : Option ExpenseSource) (r : Restore) (s : Db) (a : Allocation) (s' : Db)
    → in_book (allocate_amounts x source r) s ≡ ok (a, s')
    → (allocate source x
          (s.book.balances.shu +ℤ r.restore_shu)
          (s.book.balances.capital +ℤ r.restore_capital)
        ≡ ok a)
      × (s' ≡ s)
allocated x source r s a s' h = ground arith

pub inserted :
    (e x : Expense) (s s' : Db)
    → insert_expense e s ≡ ok (x, s')
    → (x ≡ record e { id = s.next_id })
      × (s' ≡ record s { expenses = x ∷ s.expenses; next_id = s.next_id + 1 })
inserted e x s s' h = ground arith

-- The row and the entry that `write_expense` leaves.
record Written (now : ℕ) (row : Expense) (s : Db) (e : Expense) (s' : Db) : Type 0 where
  stored : e ≡ record row { id = s.next_id }
  entry : CashbookTransaction
  booked :
      create_expense_transaction now e.id row.shu_amount row.capital_amount (some e.txn_date) s.book
      ≡ ok (entry, s'.book)
  rows : s' ≡ record s { book = s'.book; expenses = e ∷ s.expenses; next_id = s.next_id + 1 }

Written-from :
    (now : ℕ) (row : Expense) (s : Db) (e : Expense) (s₁ : Db) (entry : CashbookTransaction)
    (s' : Db)
    → insert_expense row s ≡ ok (e, s₁)
    → in_book
        (create_expense_transaction now e.id row.shu_amount row.capital_amount (some e.txn_date))
        s₁
      ≡ ok (entry, s')
    → Written now row s e s'
Written-from now row s e s₁ entry s' i b =
    let f = inserted row e s s₁ i in
    let g =
      in_book-eq-ok
        (create_expense_transaction now e.id row.shu_amount row.capital_amount (some e.txn_date)) s₁
        entry s' b in
    record {
      stored = f.0;
      entry = entry;
      booked = rw f.1 at g.0;
      rows = g.1 ∙ ap (λ (x : Db). record x { book = s'.book }) f.1;
    }

write_expense-Written :
    (now : ℕ) (row : Expense) (s : Db) (e : Expense) (s' : Db)
    → write_expense now row s ≡ ok (e, s')
    → Written now row s e s'
unfolding write_expense
write_expense-Written now row s e s' h =
    let ((x, s₁), e₁, h₁) = >>=-eq-ok (insert_expense row) _ s (e, s') h in
    let ((entry, s₂), e₂, h₂) =
      >>-eq-ok
        (in_book
          (create_expense_transaction now x.id row.shu_amount row.capital_amount (some x.txn_date)))
        (pure x) s₁ (e, s') h₁ in
    subst (λ (p : Expense × Db). Written now row s p.0 p.1) (ok-injective h₂)
      (Written-from now row s x s₁ entry s₂ e₁ e₂)

module _ (now : ℕ) (dto : CreateExpenseDto) (uid : ℕ) (s : Db) (e : Expense) (s' : Db)
    (amount_nonneg : pos 0 ≤ℤ dto.amount) (bs : pos 0 ≤ℤ s.book.balances.shu)
    (bc : pos 0 ≤ℤ s.book.balances.capital) where
  Created-from :
      (default : ExpenseSource) (a : Allocation)
      → allocate
          (some (or_value dto.source default))
          dto.amount
          (s.book.balances.shu +ℤ pos 0)
          (s.book.balances.capital +ℤ pos 0)
        ≡ ok a
      → Written now (new_expense now dto uid (or_value dto.source default) a) s e s'
      → Created now dto s e s'
  Created-from default a al w =
      let source = or_value dto.source default in
      let split =
        allocate-IsSplit dto.amount s.book.balances.shu s.book.balances.capital amount_nonneg bs bc
          source a (simp +ℤ-zero at al) in
      record {
        split = rw w.stored split;
        default_source = default;
        chosen = rw w.stored (simp +ℤ-zero at al);
        entry = w.entry;
        booked = rw w.stored (rw w.stored at w.booked);
        rows = w.rows;
      }

  Created-with :
      (category : ExpenseCategory)
      → find_category dto.expense_category_id s ≡ some category
      → create_expense_in_transaction now dto uid s ≡ ok (e, s')
      → Created now dto s e s'
  unfolding create_expense_in_transaction
  Created-with category found h =
      let source = or_value dto.source category.default_source in
      let ((a, s₁), e₁, h₁) =
        >>=-eq-ok (in_book (allocate_amounts dto.amount (some source) no_restore))
          (λ x. write_expense now (new_expense now dto uid source x)) s (e, s') (rw found at h) in
      let al = allocated dto.amount (some source) no_restore s a s₁ e₁ in
      Created-from category.default_source a al.0
        (write_expense-Written now _ s e s' (rw al.1 at h₁))

  pub create_expense-Created :
      create_expense_in_transaction now dto uid s ≡ ok (e, s') → Created now dto s e s'
  unfolding create_expense_in_transaction
  create_expense-Created h = elim (Option-cases (find_category dto.expense_category_id s)) [
    | inl missing ↦ absurd (cc (rw missing at h))
    | inr (category, found) ↦ Created-with category found h
  ]

-- An expense of an amount that is not negative and that goes through is split over the funds within
-- what they hold, and the ledger stays behind the balances.
pub create_expense-IsConsistent :
    (o : Balances) (now : ℕ) (dto : CreateExpenseDto) (uid : ℕ) (s : Db) (e : Expense) (s' : Db)
    → pos 0 ≤ℤ dto.amount
    → IsConsistent o s.book
    → create_expense_in_transaction now dto uid s ≡ ok (e, s')
    → IsSplit dto.amount s.book.balances.shu s.book.balances.capital (amounts_of e)
      × IsConsistent o s'.book
create_expense-IsConsistent o now dto uid s e s' amount_nonneg c h =
    let w =
      create_expense-Created now dto uid s e s' amount_nonneg c.shu_nonneg c.capital_nonneg h in
    (
      w.split,
      create_expense_transaction-IsConsistent o now e.id e.shu_amount e.capital_amount
          (some e.txn_date) s.book w.entry s'.book w.split.shu_nonneg w.split.capital_nonneg c
          w.booked,
    )
