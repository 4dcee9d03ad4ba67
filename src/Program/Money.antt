-- ===== src/Program/Money.antt =====
-- The transactions that move money keep the state well.
use be_lumbung_mesari.Prelude.{
  ℕ, ℤ, pos, ◌≤ℤ◌, sym, subst, Bool, true, false, not, ◌==◌, Option, none, some, All, All-select,
  All-update_where, select, if◌then◌else◌,
}
use be_lumbung_mesari.Exec.{Error, Tx, ok, err, modify, ◌>>◌, >>=-eq-ok}
use be_lumbung_mesari.Exec.Keeps.{
  After, Preserves, from-Preserves, ok-Preserves, then-Preserves, transaction_rules,
}
use be_lumbung_mesari.Calendar.{Clock}
use be_lumbung_mesari.Cashbook.{Balances, Book, IncomeDestination, delete_expense_transaction}
use be_lumbung_mesari.Db.{
  Db, Loan, Expense, ExpenseCategory, Income, Installment, in_book, in_book-eq-ok,
}
use be_lumbung_mesari.Incomes.{book_income, create_loan_admin_fee_income}
use be_lumbung_mesari.Incomes.Bookings.{
  IsIncomeInsert, book_income-IsBooked, IsBooked-IsConsistent, admin_fee-IsIncomeInsert,
  principal-IsIncomeInsert, interest-IsIncomeInsert, penalty-IsIncomeInsert,
}
use be_lumbung_mesari.Expenses.Allocation.{Allocation}
use be_lumbung_mesari.Expenses.{
  CreateExpenseDto, UpdateExpenseDto, UpdateExpense, create_expense_in_transaction,
  amounts_or_existing, set_columns, update_expense_by_id, update_data, update_entry,
  update_in_transaction, reallocate, effective_source, restore_of, delete_expense_by_id,
}
use be_lumbung_mesari.Expenses.Books.{create_expense-Created, create_expense-IsConsistent}
use be_lumbung_mesari.Expenses.Changes.{
  IsNonneg, IsNonnegAmount, delete_in_transaction-IsConsistent, update_in_transaction-IsConsistent,
  reallocate-IsNonneg,
}
use be_lumbung_mesari.Auth.Members.{IsSound}
use be_lumbung_mesari.Loans.Repository.{LoanTable, activate_loan, create_installments}
use be_lumbung_mesari.Loans.Schedule.{generate_installments}
use be_lumbung_mesari.Loans.Service.{
  disbursement_dto, book_installment, settle_in_transaction, pay_out, disburse_in_transaction,
}
use be_lumbung_mesari.Savings.Service.{settle_mandatory_in_transaction}
use be_lumbung_mesari.Savings.Settlement.{mandatory-IsIncomeInsert}
use be_lumbung_mesari.Program.Well.{
  IsPayable, IsSpent, IsWell, update_installment-Preserves, create_installments-Preserves,
  activate_loan-Preserves, update_mandatory-Preserves,
}

-- All but the ledger.
abbrev IsRest : (ℕ → Bool) → Db → Type 0
IsRest exempt s = All IsPayable s.loans × All IsSpent s.expenses × IsSound exempt s

in_book-Preserves :
    (exempt : ℕ → Bool) {A : Type 0} (m : Tx Book A) → Preserves (IsRest exempt) (in_book m)
in_book-Preserves exempt m =
    from-Preserves (in_book m)
      (λ s a s' h e. subst (IsRest exempt) (sym (in_book-eq-ok m s a s' e).1) h)

remove_expense-Preserves :
    (exempt : ℕ → Bool) (id : ℕ)
    → Preserves
        (IsRest exempt)
        (modify (λ s. record s { expenses = select (λ e. not (e.id == id)) s.expenses }))
remove_expense-Preserves exempt id = record {
  holds = λ s h. (h.0, All-select IsSpent (λ (e : Expense). not (e.id == id)) s.expenses h.1, h.2);
}

-- The UPDATE of an expense, with new amounts that are not negative, if any.
columns-IsSpent :
    (d : UpdateExpense) (existing : Expense)
    → IsNonneg (amounts_or_existing d.amounts existing)
    → (e : Expense) → IsSpent e
    → IsSpent (set_columns d e)
columns-IsSpent d existing n e v = go d.amounts n
  where
    go :
        (amounts : Option Allocation)
        → IsNonneg (amounts_or_existing amounts existing)
        → IsSpent (set_columns (record d { amounts = amounts }) e)
    go none m = v
    go (some a) m = m

checked :
    (exempt : ℕ → Bool) (b : Bool) (s : Db) (x : Error)
    → IsRest exempt s
    → After {A = Unit {0}} (IsRest exempt) (if b then ok (tt, s) else err x)
checked exempt true s x h = h
checked exempt false s x h = tt

update_by_id-Preserves :
    (exempt : ℕ → Bool) (id : ℕ) (d : UpdateExpense)
    → ((e : Expense) → IsSpent e → IsSpent (set_columns d e))
    → Preserves (IsRest exempt) (update_expense_by_id id d)
update_by_id-Preserves exempt id d spent = record {
  holds = λ s h. checked exempt _ _ _ (
    h.0,
    All-update_where IsSpent (λ (e : Expense). e.id == id) (set_columns d) spent s.expenses h.1,
    h.2,
  );
}

update_entry-Preserves :
    (exempt : ℕ → Bool) (now id : ℕ) (amounts : Option Allocation) (existing : Expense)
    (date : Option ℕ)
    → Preserves (IsRest exempt) (update_entry now id amounts existing date)
unfolding update_entry
update_entry-Preserves exempt now id amounts existing date =
    search (transaction_rules, in_book-Preserves)

module _ (o : Balances) (exempt : ℕ → Bool) where
  pub book_income-Preserves :
      (now : ℕ) (amount : ℤ) (d : IncomeDestination) (create : Tx Db Income)
      → IsIncomeInsert create
      → Preserves (IsWell o exempt) (book_income now amount d create)
  book_income-Preserves now amount d create inserts =
      from-Preserves (book_income now amount d create) (λ s u s' h e.
        let b = book_income-IsBooked now amount d create inserts s s' e in
        let c = IsBooked-IsConsistent o now amount d s s' h.0 b in
        subst (IsWell o exempt) (sym b.rest) (c, h.1, h.2, h.3))

  pub create_expense-Preserves :
      (now : ℕ) (dto : CreateExpenseDto) (uid : ℕ)
      → pos 0 ≤ℤ dto.amount
      → Preserves (IsWell o exempt) (create_expense_in_transaction now dto uid)
  create_expense-Preserves now dto uid nonneg =
      from-Preserves (create_expense_in_transaction now dto uid) (λ s x s' h e.
        let w =
          create_expense-Created now dto uid s x s' nonneg h.0.shu_nonneg h.0.capital_nonneg e in
        let c = create_expense-IsConsistent o now dto uid s x s' nonneg h.0 e in
        subst (IsWell o exempt) (sym w.rows) (
          c.1,
          h.1,
          (
            record { shu_nonneg = w.split.shu_nonneg; capital_nonneg = w.split.capital_nonneg },
            h.2,
          ),
          h.3,
        ))

  pub delete_expense-Preserves :
      (now id : ℕ)
      → Preserves
          (IsWell o exempt)
          (in_book (delete_expense_transaction now id) >> delete_expense_by_id id)
  delete_expense-Preserves now id =
      let rest : Preserves (IsRest exempt)
          (in_book (delete_expense_transaction now id) >> delete_expense_by_id id) =
        search (transaction_rules, in_book-Preserves, remove_expense-Preserves) in
      from-Preserves (in_book (delete_expense_transaction now id) >> delete_expense_by_id id)
        (λ s u s' h e.
          let kept = ok-Preserves rest s u s' (h.1, h.2, h.3) e in
          (delete_in_transaction-IsConsistent o now id s s' h.0 e, kept.0, kept.1, kept.2))

  book_installment-Preserves :
      (now : ℕ) (i : Installment) → Preserves (IsWell o exempt) (book_installment now i)
  unfolding book_installment
  book_installment-Preserves now i = search (
    transaction_rules, book_income-Preserves, principal-IsIncomeInsert, interest-IsIncomeInsert,
    penalty-IsIncomeInsert,
  )

  pub settle_installment-Preserves :
      (clock : Clock) (id admin_id : ℕ)
      → Preserves (IsWell o exempt) (settle_in_transaction clock id admin_id)
  unfolding settle_in_transaction
  settle_installment-Preserves clock id admin_id =
      search (transaction_rules, update_installment-Preserves, book_installment-Preserves)

  pub settle_mandatory-Preserves :
      (clock : Clock) (id admin_id : ℕ)
      → Preserves (IsWell o exempt) (settle_mandatory_in_transaction clock id admin_id)
  unfolding settle_mandatory_in_transaction
  settle_mandatory-Preserves clock id admin_id =
      search
        (
          transaction_rules, update_mandatory-Preserves, book_income-Preserves,
          mandatory-IsIncomeInsert,
        )
        depth 8

  pay_out-Preserves :
      (clock : Clock) (loan : Loan) (category : ExpenseCategory) (admin_id : ℕ)
      → IsPayable loan
      → Preserves (IsWell o exempt) (pay_out clock loan category admin_id)
  unfolding pay_out
  pay_out-Preserves clock loan category admin_id nonneg =
      then-Preserves
        (create_expense_in_transaction clock.instant (disbursement_dto loan category) admin_id)
        (book_income clock.instant loan.admin_fee_amount IncomeDestination.shu
          (create_loan_admin_fee_income loan.id loan.admin_fee_amount))
        (create_expense-Preserves clock.instant (disbursement_dto loan category) admin_id nonneg)
        (book_income-Preserves clock.instant loan.admin_fee_amount IncomeDestination.shu _
          (admin_fee-IsIncomeInsert loan.id loan.admin_fee_amount))

  pub disburse-Preserves :
      (clock : Clock) (row : LoanTable) (category : ExpenseCategory) (admin_id : ℕ)
      → IsPayable row.loan
      → Preserves (IsWell o exempt) (disburse_in_transaction clock row category admin_id)
  unfolding disburse_in_transaction
  disburse-Preserves clock row category admin_id nonneg =
      let paid = pay_out-Preserves clock row.loan category admin_id nonneg in
      let rows = generate_installments row.loan row.tenor admin_id clock.date in
      then-Preserves (activate_loan row.loan.id clock.date)
        (create_installments rows >> pay_out clock row.loan category admin_id)
        (activate_loan-Preserves o exempt row.loan.id clock.date)
        (then-Preserves (create_installments rows) (pay_out clock row.loan category admin_id)
          (create_installments-Preserves o exempt rows) paid)

  pub update_expense-Preserves :
      (now id : ℕ) (dto : UpdateExpenseDto) (existing : Expense) (category : Option ExpenseCategory)
      → IsNonnegAmount dto.amount
      → IsSpent existing
      → Preserves (IsWell o exempt) (update_in_transaction now id dto existing category)
  unfolding update_in_transaction
  update_expense-Preserves now id dto existing category hx he =
      from-Preserves (update_in_transaction now id dto existing category) (λ s u s' h e.
        let ((amounts, s₁), e₁, h₁) =
          >>=-eq-ok
            (reallocate dto.amount (effective_source dto existing category) (restore_of existing))
            (λ amounts.
              update_expense_by_id id (update_data dto amounts)
              >> update_entry now id amounts existing dto.transaction_date)
            s (tt, s') e in
        let (nonneg, same) =
          reallocate-IsNonneg dto.amount (effective_source dto existing category) existing s amounts
            s₁ hx he h.0.shu_nonneg h.0.capital_nonneg e₁ in
        let rows =
          then-Preserves (update_expense_by_id id (update_data dto amounts))
            (update_entry now id amounts existing dto.transaction_date)
            (update_by_id-Preserves exempt id (update_data dto amounts)
              (columns-IsSpent (update_data dto amounts) existing nonneg))
            (update_entry-Preserves exempt now id amounts existing dto.transaction_date) in
        let kept =
          ok-Preserves rows s₁ tt s' (subst (IsRest exempt) (sym same) (h.1, h.2, h.3)) h₁ in
        (
          update_in_transaction-IsConsistent o now id dto existing category s s' hx he h.0 e,
          kept.0,
          kept.1,
          kept.2,
        ))
