-- ===== src/Loans/Disbursement.antt =====
-- What a disbursement does, and that a loan is disbursed once even if two administrators read it
-- before either pays it out.
use be_lumbung_mesari.Prelude.{
  ℕ, ◌+◌, ℤ, pos, ◌+ℤ◌, ◌-ℤ◌, ◌≤ℤ◌, +ℤ-zero, int_laws, ◌≡◌, refl, ap, ◌∙◌, subst, none, some, List,
  [], ◌∷◌, ==_refl, find, Option-cases, Bool-cases, inl, inr,
}
use be_lumbung_mesari.Exec.{ok, ok-injective, >>-eq-ok}
use be_lumbung_mesari.Calendar.{Clock}
use be_lumbung_mesari.Cashbook.{Balances, IncomeDestination}
use be_lumbung_mesari.Cashbook.Ledger.{IsConsistent}
use be_lumbung_mesari.Cashbook.Consistency.{
  create_expense_transaction-Moved, create_expense_transaction-IsConsistent,
}
use be_lumbung_mesari.Db.{Db, Loan, Installment, Expense, ExpenseCategory}
use be_lumbung_mesari.Expenses.{create_expense_in_transaction}
use be_lumbung_mesari.Expenses.Books.{Created, create_expense-Created, amounts_of}
use be_lumbung_mesari.Expenses.Split.{allocate-capital}
use be_lumbung_mesari.Incomes.{create_loan_admin_fee_income, book_income}
use be_lumbung_mesari.Loans.Repository.{
  insert_installment, create_installments, is_same_installment,
}
use be_lumbung_mesari.Loans.Service.{disbursement_dto, pay_out}
use be_lumbung_mesari.Incomes.Bookings.{
  book_income-IsBooked, admin_fee-IsIncomeInsert, IsCollected, collected,
}

-- A row with this loan and this number is there.
abbrev pub HasInstallment : Installment → Db → Type 0
HasInstallment i s = (x : Installment) × (find (is_same_installment i) s.installments ≡ some x)

-- An INSERT of one row: it was not there, it is there now, and the rest is as before.
insert_installment-ok :
    (i : Installment) (s s' : Db)
    → insert_installment i s ≡ ok (tt, s')
    → (find (is_same_installment i) s.installments ≡ none)
      × (s' ≡ record s {
        installments = record i { id = s.next_id } ∷ s.installments;
        next_id = s.next_id + 1;
      })
unfolding insert_installment
insert_installment-ok i s s' h = elim (Option-cases (find (is_same_installment i) s.installments)) [
  | inl missing ↦ (missing, cc (rw (insert_installment, missing) at h))
  | inr (x, found) ↦ absurd (cc (rw (insert_installment, found) at h))
]

HasInstallment-cons :
    (i x : Installment) (s s' : Db)
    → s'.installments ≡ x ∷ s.installments
    → HasInstallment i s
    → HasInstallment i s'
HasInstallment-cons i x s s' e (y, found) = elim (Bool-cases (is_same_installment i x)) [
  | inl t ↦ (x, rw (e, t))
  | inr n ↦ (y, rw (e, n) found)
]

-- What an INSERT of rows leaves alone.
pub record IsInserted (s s' : Db) : Type 0 where
  pub book : s'.book ≡ s.book
  pub loans : s'.loans ≡ s.loans
  pub kept : (i : Installment) → HasInstallment i s → HasInstallment i s'

pub create_installments-IsInserted :
    (rows : List Installment) (s s' : Db)
    → create_installments rows s ≡ ok (tt, s')
    → IsInserted s s'
unfolding create_installments
create_installments-IsInserted [] s s' h =
    subst (λ (p : Unit × Db). IsInserted s p.1) (ok-injective h)
      (record { book = refl; loans = refl; kept = λ i x. x })
create_installments-IsInserted (row ∷ rows) s s' h =
    let ((_, s₁), e₁, h₁) =
      >>-eq-ok (insert_installment row) (create_installments rows) s (tt, s') h in
    let f = (insert_installment-ok row s s₁ e₁).1 in
    let g = create_installments-IsInserted rows s₁ s' h₁ in
    record {
      book = g.book ∙ ap (λ (x : Db). x.book) f;
      loans = g.loans ∙ ap (λ (x : Db). x.loans) f;
      kept = λ i x. g.kept i (HasInstallment-cons i _ s s₁ (ap (λ (y : Db). y.installments) f) x);
    }

-- The first row of an INSERT that went through was not there and is there now.
pub create_installments-first :
    (row : Installment) (rows : List Installment) (s s' : Db)
    → create_installments (row ∷ rows) s ≡ ok (tt, s')
    → (find (is_same_installment row) s.installments ≡ none) × HasInstallment row s'
unfolding create_installments
create_installments-first row rows s s' h =
    let ((_, s₁), e₁, h₁) =
      >>-eq-ok (insert_installment row) (create_installments rows) s (tt, s') h in
    let f = insert_installment-ok row s s₁ e₁ in
    let g = create_installments-IsInserted rows s₁ s' h₁ in
    let here : HasInstallment row s₁ =
      (record row { id = s.next_id }, rw (f.1, ==_refl, ==_refl) refl) in
    (f.0, g.kept row here)

-- What paying a loan out has done: the money came from the capital, which held it, and the fee went
-- to the surplus.
pub record IsPaidOut (o : Balances) (loan : Loan) (s s' : Db) : Type 0 where
  pub covered : loan.disbursed_amount ≤ℤ s.book.balances.capital
  pub capital : s'.book.balances.capital ≡ s.book.balances.capital -ℤ loan.disbursed_amount
  pub shu : s'.book.balances.shu ≡ s.book.balances.shu +ℤ loan.admin_fee_amount
  pub consistent : IsConsistent o s'.book
  pub installments : s'.installments ≡ s.installments
  pub loans : s'.loans ≡ s.loans

module _ (o : Balances) (clock : Clock) (loan : Loan) (category : ExpenseCategory) (admin_id : ℕ)
    (amount_nonneg : pos 0 ≤ℤ loan.disbursed_amount) where
  no_draw : (x : ℤ) → x -ℤ pos 0 ≡ x
  no_draw x = omega int_laws

  paid_from :
      (s s₁ s' : Db) (e : Expense)
      → IsConsistent o s.book
      → Created clock.instant (disbursement_dto loan category) s e s₁
      → IsCollected o loan.admin_fee_amount (pos 0) s₁ s'
      → IsPaidOut o loan s s'
  paid_from s s₁ s' e c w f =
      let d =
        allocate-capital loan.disbursed_amount s.book.balances.shu s.book.balances.capital
          (amounts_of e) w.chosen in
      let m =
        create_expense_transaction-Moved o clock.instant e.id e.shu_amount e.capital_amount
          (some e.txn_date) s.book w.entry s₁.book w.split.shu_nonneg w.split.capital_nonneg c
          w.booked in
      record {
        covered = d.2;
        capital = f.capital ∙ +ℤ-zero _ ∙ m.capital ∙ ap (λ x. s.book.balances.capital -ℤ x) d.1;
        shu =
            f.shu
            ∙ ap (λ x. x +ℤ loan.admin_fee_amount)
                (m.shu ∙ ap (λ x. s.book.balances.shu -ℤ x) d.0 ∙ no_draw _);
        consistent = f.consistent;
        installments = f.installments ∙ ap (λ (x : Db). x.installments) w.rows;
        loans = f.loans ∙ ap (λ (x : Db). x.loans) w.rows;
      }

  pub pay_out-IsPaidOut :
      (s s' : Db)
      → IsConsistent o s.book
      → pay_out clock loan category admin_id s ≡ ok (tt, s')
      → IsPaidOut o loan s s'
  unfolding pay_out
  pay_out-IsPaidOut s s' c h =
      let dto = disbursement_dto loan category in
      let ((e, s₁), e₁, h₁) =
        >>-eq-ok (create_expense_in_transaction clock.instant dto admin_id)
          (book_income clock.instant loan.admin_fee_amount IncomeDestination.shu
            (create_loan_admin_fee_income loan.id loan.admin_fee_amount))
          s (tt, s') h in
      let w =
        create_expense-Created clock.instant dto admin_id s e s₁ amount_nonneg c.shu_nonneg
          c.capital_nonneg e₁ in
      let c₁ =
        create_expense_transaction-IsConsistent o clock.instant e.id e.shu_amount e.capital_amount
          (some e.txn_date) s.book w.entry s₁.book w.split.shu_nonneg w.split.capital_nonneg c
          w.booked in
      paid_from s s₁ s' e c w (
        collected o clock.instant loan.admin_fee_amount IncomeDestination.shu s₁ s' c₁ (
          book_income-IsBooked clock.instant loan.admin_fee_amount IncomeDestination.shu _
            (admin_fee-IsIncomeInsert loan.id loan.admin_fee_amount) s₁ s' h₁))
