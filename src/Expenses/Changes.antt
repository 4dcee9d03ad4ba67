-- ===== src/Expenses/Changes.antt =====
-- Updating and deleting an expense.
use be_lumbung_mesari.Prelude.{
  ℕ, ℤ, pos, ◌≤ℤ◌, int_laws, ◌≡◌, refl, sym, ap, ◌∙◌, subst, Option, none, some, arith, ◌==◌,
  Bool-cases, select, ◌||◌, inl, inr, not,
}
use be_lumbung_mesari.Exec.{
  ok, pure, modify, transaction-keeps, with_row-keeps, ok-injective, not_found, >>=-eq-ok, >>-eq-ok,
  >>-ok, ◌>>◌, transaction,
}
use be_lumbung_mesari.Cashbook.{
  Balances, update_expense_transaction, delete_expense_transaction, release_expense,
}
use be_lumbung_mesari.Cashbook.Ledger.{IsConsistent}
use be_lumbung_mesari.Cashbook.Replacement.{update_expense_transaction-IsConsistent}
use be_lumbung_mesari.Cashbook.Deletion.{delete_expense-IsConsistent}
use be_lumbung_mesari.Db.{ExpenseSource, ExpenseCategory, Expense, Db, in_book, in_book-eq-ok}
use be_lumbung_mesari.Expenses.Allocation.{Allocation, allocate, allocate_amounts}
use be_lumbung_mesari.Expenses.Split.{allocate-IsSplit}
use be_lumbung_mesari.Expenses.Books.{allocated, amounts_of}
use be_lumbung_mesari.Expenses.Service.{
  UpdateExpenseDto, UpdateExpense, find_expense, reallocate, restore_of, update_data,
  update_expense_by_id, amounts_or_existing, effective_source, update_entry, update_in_transaction,
  delete_expense, delete_expense_by_id, is_some,
}

pub record IsNonneg (a : Allocation) : Type 0 where
  pub shu_nonneg : pos 0 ≤ℤ a.shu_amount
  pub capital_nonneg : pos 0 ≤ℤ a.capital_amount

abbrev pub IsNonnegAmount : Option ℤ → Type 0
IsNonnegAmount none = Unit
IsNonnegAmount (some x) = pos 0 ≤ℤ x

allocate-IsNonneg :
    (source : Option ExpenseSource) (x s c : ℤ) (a : Allocation)
    → pos 0 ≤ℤ x
    → pos 0 ≤ℤ s
    → pos 0 ≤ℤ c
    → allocate source x s c ≡ ok a
    → IsNonneg a
unfolding allocate
allocate-IsNonneg none x s c a hx hs hc h = cc
allocate-IsNonneg (some source) x s c a hx hs hc h =
    let w = allocate-IsSplit x s c hx hs hc source a h in
    record { shu_nonneg = w.shu_nonneg; capital_nonneg = w.capital_nonneg }

-- The new amounts are not negative, and the database is as it was.
pub reallocate-IsNonneg :
    (amount : Option ℤ) (source : Option ExpenseSource) (existing : Expense) (s : Db)
    (amounts : Option Allocation) (s' : Db)
    → IsNonnegAmount amount
    → IsNonneg (amounts_of existing)
    → pos 0 ≤ℤ s.book.balances.shu
    → pos 0 ≤ℤ s.book.balances.capital
    → reallocate amount source (restore_of existing) s ≡ ok (amounts, s')
    → IsNonneg (amounts_or_existing amounts existing) × (s' ≡ s)
reallocate-IsNonneg none source existing s amounts s' hx he hs hc h =
    subst (λ (q : Option Allocation × Db). IsNonneg (amounts_or_existing q.0 existing) × (q.1 ≡ s))
      (ok-injective h) (he, refl)
reallocate-IsNonneg (some x) source existing s amounts s' hx he hs hc h =
    let ((a, s₁), e₁, h₁) =
      >>=-eq-ok (in_book (allocate_amounts x source (restore_of existing))) (λ a. pure (some a)) s
        (amounts, s') h in
    let al = allocated x source (restore_of existing) s a s₁ e₁ in
    subst (λ (q : Option Allocation × Db). IsNonneg (amounts_or_existing q.0 existing) × (q.1 ≡ s))
      (ok-injective h₁)
      (allocate-IsNonneg source x _ _ a hx (omega (int_laws, he)) (omega (int_laws, he)) al.0, al.1)

pub update_expense_by_id-book :
    (id : ℕ) (d : UpdateExpense) (s s' : Db)
    → update_expense_by_id id d s ≡ ok (tt, s')
    → s'.book ≡ s.book
update_expense_by_id-book id d s s' h = ground arith

pub update_entry-IsConsistent :
    (o : Balances) (now id : ℕ) (amounts : Option Allocation) (existing : Expense) (date : Option ℕ)
    (s s' : Db)
    → IsNonneg (amounts_or_existing amounts existing)
    → IsConsistent o s.book
    → update_entry now id amounts existing date s ≡ ok (tt, s')
    → IsConsistent o s'.book
unfolding update_entry
update_entry-IsConsistent o now id amounts existing date s s' n c h =
    elim (Bool-cases (is_some amounts || is_some date)) [
      | inl t ↦
          let f = in_book-eq-ok (update_expense_transaction now id _ _ date) s tt s' (rw t at h) in
          update_expense_transaction-IsConsistent o now id
            (amounts_or_existing amounts existing).shu_amount
            (amounts_or_existing amounts existing).capital_amount date s.book s'.book n.shu_nonneg
            n.capital_nonneg c f.0
      | inr u ↦ subst (λ (q : Unit × Db). IsConsistent o q.1.book) (ok-injective (rw u at h)) c
    ]

-- Updating an expense, whichever columns are updated, keeps the ledger behind the balances, if
-- neither the new amount nor the existing ones are negative.
pub update_in_transaction-IsConsistent :
    (o : Balances) (now id : ℕ) (dto : UpdateExpenseDto) (existing : Expense)
    (category : Option ExpenseCategory) (s s' : Db)
    → IsNonnegAmount dto.amount
    → IsNonneg (amounts_of existing)
    → IsConsistent o s.book
    → update_in_transaction now id dto existing category s ≡ ok (tt, s')
    → IsConsistent o s'.book
unfolding update_in_transaction
update_in_transaction-IsConsistent o now id dto existing category s s' hx he c h =
    let ((amounts, s₁), e₁, h₁) =
      >>=-eq-ok
        (reallocate dto.amount (effective_source dto existing category) (restore_of existing))
        (λ amounts.
          update_expense_by_id id (update_data dto amounts)
          >> update_entry now id amounts existing dto.transaction_date)
        s (tt, s') h in
    let ((_, s₂), e₂, h₂) =
      >>-eq-ok (update_expense_by_id id (update_data dto amounts))
        (update_entry now id amounts existing dto.transaction_date) s₁ (tt, s') h₁ in
    let r =
      reallocate-IsNonneg dto.amount (effective_source dto existing category) existing s amounts s₁
        hx he c.shu_nonneg c.capital_nonneg e₁ in
    let b = update_expense_by_id-book id (update_data dto amounts) s₁ s₂ e₂ in
    update_entry-IsConsistent o now id amounts existing dto.transaction_date s₂ s' r.0
      (subst (IsConsistent o) (sym (b ∙ ap (λ (t : Db). t.book) r.1)) c) h₂

-- Deleting an expense keeps it too.
pub delete_in_transaction-IsConsistent :
    (o : Balances) (now id : ℕ) (s s' : Db)
    → IsConsistent o s.book
    → (in_book (delete_expense_transaction now id) >> delete_expense_by_id id) s ≡ ok (tt, s')
    → IsConsistent o s'.book
delete_in_transaction-IsConsistent o now id s s' c h =
    let ((_, s₁), e₁, h₁) =
      >>-eq-ok (in_book (delete_expense_transaction now id)) (delete_expense_by_id id) s (tt, s')
        h in
    let ((_, s₂), e₂, h₂) =
      >>-eq-ok (modify (λ t. record t { expenses = select (λ e. not (e.id == id)) t.expenses }))
        (in_book (release_expense id)) s₁ (tt, s') h₁ in
    let f₁ = in_book-eq-ok (delete_expense_transaction now id) s tt s₁ e₁ in
    let f₂ = in_book-eq-ok (release_expense id) s₂ tt s' h₂ in
    let same : s₂.book ≡ s₁.book = ap (λ (q : Unit × Db). q.1.book) (sym (ok-injective e₂)) in
    delete_expense-IsConsistent o now id s.book s'.book c (
      >>-ok (delete_expense_transaction now id) (release_expense id) s.book (tt, s₁.book)
        (ok (tt, s'.book)) f₁.0 (rw (← same) f₂.0))

-- `deleteExpense`, whether it succeeds or throws, keeps the ledger behind the balances.
pub delete_expense_method-IsConsistent :
    (o : Balances) (now id : ℕ) (s : Db)
    → IsConsistent o s.book
    → IsConsistent o (delete_expense now id s).1.book
unfolding delete_expense
delete_expense_method-IsConsistent o now id s c =
    with_row-keeps (λ (t : Db). IsConsistent o t.book) (find_expense id s) not_found
      (λ _. transaction (in_book (delete_expense_transaction now id) >> delete_expense_by_id id)) s
      c
      (λ _ _.
        transaction-keeps (λ (t : Db). IsConsistent o t.book)
          (in_book (delete_expense_transaction now id) >> delete_expense_by_id id) s
          (λ _ s' h. delete_in_transaction-IsConsistent o now id s s' c h) c)
