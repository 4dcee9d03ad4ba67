-- ===== src/Program/Well.antt =====
-- What every step of the program keeps (IsWell), and the steps on loans and savings.
use be_lumbung_mesari.Prelude.{
  ℕ, ℤ, pos, ◌≤ℤ◌, ◌≡◌, refl, Bool, ◌==◌, Option, none, some, List, [], ◌∷◌, String, All,
  All-update_where, Option-cases, inl, inr, find,
}
use be_lumbung_mesari.Exec.{Result-cases}
use be_lumbung_mesari.Exec.Keeps.{Preserves, then-Preserves, transaction_rules}
use be_lumbung_mesari.Calendar.{Date}
use be_lumbung_mesari.Cashbook.{Balances}
use be_lumbung_mesari.Cashbook.Ledger.{IsConsistent}
use be_lumbung_mesari.Db.{Db, Loan, LoanStatus, Installment, Expense, MandatorySavings}
use be_lumbung_mesari.Expenses.Books.{amounts_of}
use be_lumbung_mesari.Expenses.Changes.{IsNonneg}
use be_lumbung_mesari.Auth.Members.{IsSound}
use be_lumbung_mesari.Loans.Repository.{
  LoanTable, update_installment, insert_installment, create_installments, find_installment_by_id,
  find_loan, insert_loan, check_max_loans, update_loan, set_status, set_active, add_penalty,
  update_loan_status, activate_loan, add_penalty_to_installment, is_same_installment,
}
use be_lumbung_mesari.Loans.Application.{decide_loan}
use be_lumbung_mesari.Loans.Overdue.{
  penalize, penalize_oldest, mark_and_penalize, process_loan_in_transaction,
}
use be_lumbung_mesari.Savings.Records.{
  insert_or_ignore, is_same_period, update_mandatory_savings, find_mandatory_savings,
}

abbrev pub IsPayable : Loan → Type 0
IsPayable l = pos 0 ≤ℤ l.disbursed_amount

abbrev pub IsSpent : Expense → Type 0
IsSpent e = IsNonneg (amounts_of e)

-- The ledger is behind the balances, no loan pays out and no expense takes a negative amount, and
-- every active user has paid the principal savings.
abbrev pub IsWell : Balances → (ℕ → Bool) → Db → Type 0
IsWell o exempt s =
    IsConsistent o s.book × All IsPayable s.loans × All IsSpent s.expenses × IsSound exempt s

module _ (o : Balances) (exempt : ℕ → Bool) where
  pub update_installment-Preserves :
      (id : ℕ) (f : Installment → Installment)
      → Preserves (IsWell o exempt) (update_installment id f)
  unfolding update_installment
  update_installment-Preserves id f = record {
    holds = λ s h. elim (Option-cases (find_installment_by_id id s)) [
      | inl e ↦ rw (e, update_installment) tt
      | inr (i, e) ↦ rw (e, update_installment) h
    ];
  }

  insert_installment-Preserves :
      (row : Installment) → Preserves (IsWell o exempt) (insert_installment row)
  unfolding insert_installment
  insert_installment-Preserves row = record {
    holds = λ s h. elim (Option-cases (find (is_same_installment row) s.installments)) [
      | inl e ↦ rw (e, insert_installment) h
      | inr (i, e) ↦ rw (e, insert_installment) tt
    ];
  }

  pub create_installments-Preserves :
      (rows : List Installment) → Preserves (IsWell o exempt) (create_installments rows)
  unfolding create_installments
  create_installments-Preserves [] = record { holds = λ s h. h }
  create_installments-Preserves (row ∷ rows) = record {
    holds =
        (then-Preserves (insert_installment row) (create_installments rows)
          (insert_installment-Preserves row) (create_installments-Preserves rows)).holds;
  }

  -- An update of a loan that leaves its disbursed amount alone.
  update_loan-Preserves :
      (id : ℕ) (f : Loan → Loan)
      → ((l : Loan) → (f l).disbursed_amount ≡ l.disbursed_amount)
      → Preserves (IsWell o exempt) (update_loan id f)
  unfolding update_loan
  update_loan-Preserves id f same = record {
    holds = λ s h. elim (Option-cases (find_loan id s)) [
      | inl e ↦ rw (e, update_loan) tt
      | inr (l, e) ↦ elim (Result-cases (check_max_loans (f l) s)) [
        | inr (x, c) ↦ rw (e, c, update_loan) tt
        | inl (x, c) ↦
            rw (e, c, update_loan)
              (
                h.0,
                All-update_where IsPayable (λ (k : Loan). k.id == id) f (λ k v. rw (same k) v)
                    s.loans h.1,
                h.2,
                h.3,
              )
      ]
    ];
  }

  pub activate_loan-Preserves :
      (id : ℕ) (today : Date) → Preserves (IsWell o exempt) (activate_loan id today)
  unfolding activate_loan
  activate_loan-Preserves id today = update_loan-Preserves id (set_active today) (λ l. refl)

  set_status-same :
      (status : LoanStatus) (by : Option ℕ) (notes : Option String) (today : Date) (l : Loan)
      → (set_status status by notes today l).disbursed_amount ≡ l.disbursed_amount
  set_status-same LoanStatus.approved by notes today l = refl
  set_status-same LoanStatus.pending by notes today l = refl
  set_status-same _ by notes today l = refl

  update_loan_status-Preserves :
      (id : ℕ) (status : LoanStatus) (by : Option ℕ) (notes : Option String) (today : Date)
      → Preserves (IsWell o exempt) (update_loan_status id status by notes today)
  unfolding update_loan_status
  update_loan_status-Preserves id status by notes today =
      update_loan-Preserves id (set_status status by notes today)
        (set_status-same status by notes today)

  pub decide_loan-Preserves :
      (id : ℕ) (status : LoanStatus) (by : Option ℕ) (notes : Option String) (today : Date)
      → Preserves (IsWell o exempt) (decide_loan id status by notes today)
  unfolding decide_loan
  decide_loan-Preserves id status by notes today =
      search (transaction_rules, update_loan_status-Preserves)

  penalize-Preserves :
      (penalty : ℤ) (oldest : Option Installment)
      → Preserves (IsWell o exempt) (penalize penalty oldest)
  unfolding add_penalty_to_installment
  penalize-Preserves penalty none = record { holds = λ s h. h }
  penalize-Preserves penalty (some i) = update_installment-Preserves i.id (add_penalty penalty)

  mark_and_penalize-Preserves :
      (id : ℕ) (i : Installment) (row : LoanTable)
      → Preserves (IsWell o exempt) (mark_and_penalize id i row)
  unfolding mark_and_penalize penalize_oldest
  mark_and_penalize-Preserves id i row =
      search (transaction_rules, update_installment-Preserves, penalize-Preserves)

  pub process_loan-Preserves :
      (id : ℕ) (rows : List Installment)
      → Preserves (IsWell o exempt) (process_loan_in_transaction id rows)
  unfolding process_loan_in_transaction
  process_loan-Preserves id [] = search transaction_rules
  process_loan-Preserves id (i ∷ rows) = search (transaction_rules, mark_and_penalize-Preserves)

  pub insert_or_ignore-Leaves :
      (row : MandatorySavings) (s : Db)
      → IsWell o exempt s
      → IsWell o exempt (insert_or_ignore row s)
  unfolding insert_or_ignore
  insert_or_ignore-Leaves row s h =
      elim (Option-cases (find (is_same_period row) s.mandatory_savings)) [
        | inl e ↦ rw (e, insert_or_ignore) h
        | inr (m, e) ↦ rw (e, insert_or_ignore) h
      ]

  pub insert_loan-Preserves :
      (row : Loan) → IsPayable row → Preserves (IsWell o exempt) (insert_loan row)
  unfolding insert_loan
  insert_loan-Preserves row nonneg = record {
    holds = λ s h. elim (Result-cases (check_max_loans (record row { id = s.next_id }) s)) [
      | inr (x, e) ↦ rw (e, insert_loan) tt
      | inl (u, e) ↦ rw (e, insert_loan) (h.0, (nonneg, h.1), h.2, h.3)
    ];
  }

  pub update_mandatory-Preserves :
      (id : ℕ) (f : MandatorySavings → MandatorySavings)
      → Preserves (IsWell o exempt) (update_mandatory_savings id f)
  unfolding update_mandatory_savings
  update_mandatory-Preserves id f = record {
    holds = λ s h. elim (Option-cases (find_mandatory_savings id s)) [
      | inl e ↦ rw (e, update_mandatory_savings) tt
      | inr (i, e) ↦ rw (e, update_mandatory_savings) h
    ];
  }
