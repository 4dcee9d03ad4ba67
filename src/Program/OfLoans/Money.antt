-- ===== src/Program/OfLoans/Money.antt =====
-- The transactions that move money keep a property of the loans.
use be_lumbung_mesari.Prelude.{
  ℕ, ℤ, ◌≡◌, refl, sym, subst, Bool, true, false, not, if◌then◌else◌, Option, none, some, List, [],
  ◌∷◌, ◌==◌, find, select, arith, Option-cases, Bool-cases, inl, inr,
}
use be_lumbung_mesari.Exec.{Error, Tx, ok, err, modify, ◌>>◌, >>-eq-ok}
use be_lumbung_mesari.Exec.Keeps.{
  After, Preserves, from-Preserves, ok-Preserves, then-Preserves, transaction_rules,
}
use be_lumbung_mesari.Calendar.{Clock}
use be_lumbung_mesari.Cashbook.{Book, IncomeDestination, delete_expense_transaction}
use be_lumbung_mesari.Db.{
  Db, Loan, Expense, ExpenseCategory, ExpenseSource, Income, Installment, MandatorySavings, in_book,
  in_book-eq-ok,
}
use be_lumbung_mesari.Incomes.{book_income}
use be_lumbung_mesari.Incomes.Bookings.{
  IsIncomeInsert, book_income-IsBooked, admin_fee-IsIncomeInsert, principal-IsIncomeInsert,
  interest-IsIncomeInsert, penalty-IsIncomeInsert,
}
use be_lumbung_mesari.Expenses.Allocation.{Allocation, Restore}
use be_lumbung_mesari.Expenses.{
  CreateExpenseDto, UpdateExpenseDto, UpdateExpense, amounts_positive, insert_expense,
  write_expense, create_expense_in_transaction, update_expense_by_id, reallocate, update_entry,
  update_in_transaction, delete_expense_by_id,
}
use be_lumbung_mesari.Loans.Repository.{
  LoanTable, find_by_id, is_approved, activate_loan, is_same_installment, insert_installment,
  create_installments, find_installment_by_id, update_installment, add_penalty,
  add_penalty_to_installment,
}
use be_lumbung_mesari.Loans.Overdue.{
  penalize, penalize_oldest, mark_and_penalize, process_loan_in_transaction,
}
use be_lumbung_mesari.Loans.Schedule.{generate_installments}
use be_lumbung_mesari.Loans.Service.{
  pay_out, book_installment, settle_in_transaction, disburse_in_transaction,
}
use be_lumbung_mesari.Savings.Records.{
  insert_or_ignore, is_same_period, find_mandatory_savings, update_mandatory_savings,
}
use be_lumbung_mesari.Savings.Service.{settle_mandatory_in_transaction}
use be_lumbung_mesari.Savings.Settlement.{mandatory-IsIncomeInsert}
use be_lumbung_mesari.Program.OfLoans.{IsOfLoans}

module _ (P : Db → Type 0) (of_loans : IsOfLoans P) where
  pub in_book-Preserves : {A : Type 0} (m : Tx Book A) → Preserves P (in_book m)
  in_book-Preserves m = from-Preserves (in_book m) (λ s a s' h e.
      subst P (sym (in_book-eq-ok m s a s' e).1) (of_loans.unchanged s _ refl (omega arith) h))

  pub book_income-Preserves :
      (now : ℕ) (amount : ℤ) (d : IncomeDestination) (create : Tx Db Income)
      → IsIncomeInsert create
      → Preserves P (book_income now amount d create)
  book_income-Preserves now amount d create inserts =
      from-Preserves (book_income now amount d create) (λ s u s' h e.
        subst P (sym (book_income-IsBooked now amount d create inserts s s' e).rest)
          (of_loans.unchanged s _ refl (omega arith) h))

  update_installment-Preserves :
      (id : ℕ) (f : Installment → Installment) → Preserves P (update_installment id f)
  unfolding update_installment
  update_installment-Preserves id f = record {
    holds = λ s h. elim (Option-cases (find_installment_by_id id s)) [
      | inl e ↦ rw (e, update_installment) tt
      | inr (i, e) ↦ rw (e, update_installment) (of_loans.unchanged s _ refl (omega arith) h)
    ];
  }

  insert_installment-Preserves : (row : Installment) → Preserves P (insert_installment row)
  unfolding insert_installment
  insert_installment-Preserves row = record {
    holds = λ s h. elim (Option-cases (find (is_same_installment row) s.installments)) [
      | inl e ↦ rw (e, insert_installment) (of_loans.unchanged s _ refl (omega arith) h)
      | inr (i, e) ↦ rw (e, insert_installment) tt
    ];
  }

  create_installments-Preserves : (rows : List Installment) → Preserves P (create_installments rows)
  unfolding create_installments
  create_installments-Preserves [] = record { holds = λ s h. h }
  create_installments-Preserves (row ∷ rows) = record {
    holds =
        (then-Preserves (insert_installment row) (create_installments rows)
          (insert_installment-Preserves row) (create_installments-Preserves rows)).holds;
  }

  insert_expense-Preserves : (row : Expense) → Preserves P (insert_expense row)
  insert_expense-Preserves row = record {
    holds = λ s h. elim (Bool-cases (amounts_positive row)) [
      | inl t ↦ rw t (of_loans.unchanged s _ refl (omega arith) h)
      | inr n ↦ rw n tt
    ];
  }

  pub create_expense-Preserves :
      (now : ℕ) (dto : CreateExpenseDto) (uid : ℕ)
      → Preserves P (create_expense_in_transaction now dto uid)
  unfolding create_expense_in_transaction write_expense
  create_expense-Preserves now dto uid =
      search (transaction_rules, in_book-Preserves, insert_expense-Preserves) depth 12

  written :
      (b : Bool) (s s' : Db) (x : Error)
      → P s'
      → After {A = Unit {0}} P (if b then ok (tt, s') else err x)
  written true s s' x h = h
  written false s s' x h = tt

  update_by_id-Preserves : (id : ℕ) (d : UpdateExpense) → Preserves P (update_expense_by_id id d)
  update_by_id-Preserves id d = record {
    holds = λ s h. written _ s _ _ (of_loans.unchanged s _ refl (omega arith) h);
  }

  reallocate-Preserves :
      (amount : Option ℤ) (source : Option ExpenseSource) (restore : Restore)
      → Preserves P (reallocate amount source restore)
  reallocate-Preserves none source restore = search transaction_rules
  reallocate-Preserves (some amount) source restore = search (transaction_rules, in_book-Preserves)

  update_entry-Preserves :
      (now id : ℕ) (amounts : Option Allocation) (existing : Expense) (date : Option ℕ)
      → Preserves P (update_entry now id amounts existing date)
  unfolding update_entry
  update_entry-Preserves now id amounts existing date =
      search (transaction_rules, in_book-Preserves)

  pub update_expense-Preserves :
      (now id : ℕ) (dto : UpdateExpenseDto) (existing : Expense) (category : Option ExpenseCategory)
      → Preserves P (update_in_transaction now id dto existing category)
  unfolding update_in_transaction
  update_expense-Preserves now id dto existing category =
      search
        (transaction_rules, reallocate-Preserves, update_by_id-Preserves, update_entry-Preserves)

  remove_expense-Preserves :
      (id : ℕ)
      → Preserves P
          (modify (λ s. record s { expenses = select (λ e. not (e.id == id)) s.expenses }))
  remove_expense-Preserves id = record {
    holds = λ s h. of_loans.unchanged s _ refl (omega arith) h;
  }

  pub delete_expense-Preserves :
      (now id : ℕ)
      → Preserves P (in_book (delete_expense_transaction now id) >> delete_expense_by_id id)
  delete_expense-Preserves now id =
      search (transaction_rules, in_book-Preserves, remove_expense-Preserves)

  book_installment-Preserves : (now : ℕ) (i : Installment) → Preserves P (book_installment now i)
  unfolding book_installment
  book_installment-Preserves now i = search (
    transaction_rules, book_income-Preserves, principal-IsIncomeInsert, interest-IsIncomeInsert,
    penalty-IsIncomeInsert,
  )

  pub settle_installment-Preserves :
      (clock : Clock) (id admin_id : ℕ) → Preserves P (settle_in_transaction clock id admin_id)
  unfolding settle_in_transaction
  settle_installment-Preserves clock id admin_id =
      search (transaction_rules, update_installment-Preserves, book_installment-Preserves)

  penalize-Preserves :
      (penalty : ℤ) (oldest : Option Installment) → Preserves P (penalize penalty oldest)
  unfolding add_penalty_to_installment
  penalize-Preserves penalty none = record { holds = λ s h. h }
  penalize-Preserves penalty (some i) = update_installment-Preserves i.id (add_penalty penalty)

  mark_and_penalize-Preserves :
      (id : ℕ) (i : Installment) (row : LoanTable) → Preserves P (mark_and_penalize id i row)
  unfolding mark_and_penalize penalize_oldest
  mark_and_penalize-Preserves id i row =
      search (transaction_rules, update_installment-Preserves, penalize-Preserves)

  pub process_loan-Preserves :
      (id : ℕ) (rows : List Installment) → Preserves P (process_loan_in_transaction id rows)
  unfolding process_loan_in_transaction
  process_loan-Preserves id [] = search transaction_rules
  process_loan-Preserves id (i ∷ rows) = search (transaction_rules, mark_and_penalize-Preserves)

  update_mandatory-Preserves :
      (id : ℕ) (f : MandatorySavings → MandatorySavings)
      → Preserves P (update_mandatory_savings id f)
  unfolding update_mandatory_savings
  update_mandatory-Preserves id f = record {
    holds = λ s h. elim (Option-cases (find_mandatory_savings id s)) [
      | inl e ↦ rw (e, update_mandatory_savings) tt
      | inr (i, e) ↦ rw (e, update_mandatory_savings) (of_loans.unchanged s _ refl (omega arith) h)
    ];
  }

  pub settle_mandatory-Preserves :
      (clock : Clock) (id admin_id : ℕ)
      → Preserves P (settle_mandatory_in_transaction clock id admin_id)
  unfolding settle_mandatory_in_transaction
  settle_mandatory-Preserves clock id admin_id =
      search
        (
          transaction_rules, update_mandatory-Preserves, book_income-Preserves,
          mandatory-IsIncomeInsert,
        )
        depth 8

  pub add_savings : (row : MandatorySavings) (s : Db) → P s → P (insert_or_ignore row s)
  unfolding insert_or_ignore
  add_savings row s h = elim (Option-cases (find (is_same_period row) s.mandatory_savings)) [
    | inl e ↦ rw (e, insert_or_ignore) (of_loans.unchanged s _ refl (omega arith) h)
    | inr (m, e) ↦ rw (e, insert_or_ignore) h
  ]

  pay_out-Preserves :
      (clock : Clock) (loan : Loan) (category : ExpenseCategory) (admin_id : ℕ)
      → Preserves P (pay_out clock loan category admin_id)
  unfolding pay_out
  pay_out-Preserves clock loan category admin_id =
      search (
        transaction_rules, create_expense-Preserves, book_income-Preserves,
        admin_fee-IsIncomeInsert,
      )

  pub disburse-Preserves :
      (clock : Clock) (id : ℕ) (row : LoanTable) (category : ExpenseCategory) (admin_id : ℕ)
      (s s' : Db)
      → find_by_id id s ≡ some row
      → not (is_approved row.loan.status) ≡ false
      → P s
      → disburse_in_transaction clock row category admin_id s ≡ ok (tt, s')
      → P s'
  unfolding disburse_in_transaction
  disburse-Preserves clock id row category admin_id s s' found approved h e =
      let rest =
        create_installments (generate_installments row.loan row.tenor admin_id clock.date)
        >> pay_out clock row.loan category admin_id in
      let ((_, s₁), e₁, h₁) = >>-eq-ok (activate_loan row.loan.id clock.date) rest s (tt, s') e in
      let keeps : Preserves P rest =
        search (transaction_rules, create_installments-Preserves, pay_out-Preserves) in
      ok-Preserves keeps s₁ tt s' (of_loans.activated clock.date id row s s₁ found approved h e₁) h₁
