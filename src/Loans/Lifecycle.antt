-- ===== src/Loans/Lifecycle.antt =====
-- The disbursement as a whole, and that a loan is paid out once.
use be_lumbung_mesari.Prelude.{
  ℕ, pos, ◌+ℤ◌, ◌-ℤ◌, ◌≤ℤ◌, ◌≡◌, sym, ap, ◌∙◌, List, ◌==◌, update_where, subst,
}
use be_lumbung_mesari.Exec.{ok, >>-eq-ok, ◌>>◌}
use be_lumbung_mesari.Calendar.{Clock}
use be_lumbung_mesari.Cashbook.{Balances}
use be_lumbung_mesari.Cashbook.Ledger.{IsConsistent}
use be_lumbung_mesari.Db.{Db, Installment, ExpenseCategory}
use be_lumbung_mesari.Loans.Schedule.{generate_installments}
use be_lumbung_mesari.Loans.Repository.{LoanTable, activate_loan, set_active, create_installments}
use be_lumbung_mesari.Loans.Service.{pay_out, disburse_in_transaction}
use be_lumbung_mesari.Loans.Decisions.{update_loan-ok}
use be_lumbung_mesari.Loans.Disbursement.{
  IsInserted, create_installments-IsInserted, IsPaidOut, pay_out-IsPaidOut,
}

module _ (clock : Clock) (row : LoanTable) (category : ExpenseCategory) (admin_id : ℕ) where
  abbrev rows : List Installment
  rows = generate_installments row.loan row.tenor admin_id clock.date

  -- The states between the steps of a disbursement that went through.
  pub record Steps (s s' : Db) : Type 0 where
    pub active : Db
    pub scheduled : Db
    pub activated : active ≡ record s {
      loans = update_where (λ l. l.id == row.loan.id) (set_active clock.date) s.loans;
    }
    pub inserted : create_installments rows active ≡ ok (tt, scheduled)
    pub paid : pay_out clock row.loan category admin_id scheduled ≡ ok (tt, s')

  pub steps :
      (s s' : Db) → disburse_in_transaction clock row category admin_id s ≡ ok (tt, s') → Steps s s'
  unfolding disburse_in_transaction activate_loan
  steps s s' h =
      let ((_, s₁), e₁, h₁) =
        >>-eq-ok (activate_loan row.loan.id clock.date)
          (create_installments rows >> pay_out clock row.loan category admin_id) s (tt, s') h in
      let ((_, s₂), e₂, h₂) =
        >>-eq-ok (create_installments rows) (pay_out clock row.loan category admin_id) s₁ (tt, s')
          h₁ in
      record {
        active = s₁;
        scheduled = s₂;
        activated = (update_loan-ok row.loan.id (set_active clock.date) s s₁ e₁).0;
        inserted = e₂;
        paid = h₂;
      }

  -- What a disbursement has done.
  pub record IsDisbursed (o : Balances) (s s' : Db) : Type 0 where
    pub covered : row.loan.disbursed_amount ≤ℤ s.book.balances.capital
    pub capital : s'.book.balances.capital ≡ s.book.balances.capital -ℤ row.loan.disbursed_amount
    pub shu : s'.book.balances.shu ≡ s.book.balances.shu +ℤ row.loan.admin_fee_amount
    pub consistent : IsConsistent o s'.book
    pub loans : s'.loans ≡ update_where (λ l. l.id == row.loan.id) (set_active clock.date) s.loans

  IsDisbursed-from :
      (o : Balances) (s s₁ s₂ s' : Db)
      → s₁ ≡ record s {
        loans = update_where (λ l. l.id == row.loan.id) (set_active clock.date) s.loans;
      }
      → IsInserted s₁ s₂
      → IsPaidOut o row.loan s₂ s'
      → IsDisbursed o s s'
  IsDisbursed-from o s s₁ s₂ s' e i p =
      let book : s₂.book ≡ s.book = i.book ∙ ap (λ (x : Db). x.book) e in
      record {
        covered = subst (λ b. row.loan.disbursed_amount ≤ℤ b.balances.capital) book p.covered;
        capital = p.capital ∙ ap (λ b. b.balances.capital -ℤ row.loan.disbursed_amount) book;
        shu = p.shu ∙ ap (λ b. b.balances.shu +ℤ row.loan.admin_fee_amount) book;
        consistent = p.consistent;
        loans = p.loans ∙ i.loans ∙ ap (λ (x : Db). x.loans) e;
      }

  -- A disbursement of an amount that is not negative, over a ledger behind the balances, that goes
  -- through found the money in the capital; it takes it from there, adds
  -- the fee to the surplus, keeps the ledger behind the balances and makes the loan active.
  pub disburse_in_transaction-IsDisbursed :
      (o : Balances) (s s' : Db)
      → pos 0 ≤ℤ row.loan.disbursed_amount
      → IsConsistent o s.book
      → disburse_in_transaction clock row category admin_id s ≡ ok (tt, s')
      → IsDisbursed o s s'
  disburse_in_transaction-IsDisbursed o s s' nonneg c h =
      let t = steps s s' h in
      let i = create_installments-IsInserted rows t.active t.scheduled t.inserted in
      let book : t.scheduled.book ≡ s.book = i.book ∙ ap (λ (x : Db). x.book) t.activated in
      IsDisbursed-from o s t.active t.scheduled s' t.activated i (
        pay_out-IsPaidOut o clock row.loan category admin_id nonneg t.scheduled s'
          (subst (λ b. IsConsistent o b) (sym book) c) t.paid)
