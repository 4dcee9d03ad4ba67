-- ===== src/Loans/Once.antt =====
-- A loan is paid out once.
use be_lumbung_mesari.Prelude.{
  ℕ, zero, suc, ◌<◌, pos, ◌≤ℤ◌, ◌≡◌, ◌≢◌, refl, sym, ap, ◌∙◌, subst, none, some, List, ◌∷◌, find,
  arith,
}
use be_lumbung_mesari.Exec.{ok}
use be_lumbung_mesari.Calendar.{Clock, Date}
use be_lumbung_mesari.Cashbook.{Balances}
use be_lumbung_mesari.Cashbook.Ledger.{IsConsistent}
use be_lumbung_mesari.Db.{Db, Loan, Installment, ExpenseCategory}
use be_lumbung_mesari.Loans.Schedule.{installment_at, installments_from, generate_installments}
use be_lumbung_mesari.Loans.Repository.{LoanTable, create_installments, is_same_installment}
use be_lumbung_mesari.Loans.Service.{disburse_in_transaction}
use be_lumbung_mesari.Loans.Disbursement.{
  HasInstallment, create_installments-IsInserted, create_installments-first, pay_out-IsPaidOut,
}
use be_lumbung_mesari.Loans.Lifecycle.{steps}

generated_first :
    (loan : Loan) (tenor by : ℕ) (date : Date)
    → 0 < tenor
    → (rest : List Installment) × (generate_installments loan tenor by date
        ≡ installment_at loan tenor by date 1 ∷ rest)
unfolding generate_installments installments_from
generated_first loan zero by date h = absurd (omega (arith, h))
generated_first loan (suc n) by date h = (_, refl)

module _ (clock : Clock) (row : LoanTable) (category : ExpenseCategory) (admin_id : ℕ)
    (has_months : 0 < row.tenor) where
  abbrev first : Installment
  first = installment_at row.loan row.tenor admin_id clock.date 1

  -- The first row of the schedule was not there before, and is there after.
  first_inserted :
      (s s' : Db)
      → create_installments (generate_installments row.loan row.tenor admin_id clock.date) s
        ≡ ok (tt, s')
      → (find (is_same_installment first) s.installments ≡ none) × HasInstallment first s'
  first_inserted s s' h =
      let (rest, e) = generated_first row.loan row.tenor admin_id clock.date has_months in
      create_installments-first first rest s s' (rw e at h)

  not_scheduled_before :
      (s s' : Db)
      → disburse_in_transaction clock row category admin_id s ≡ ok (tt, s')
      → find (is_same_installment first) s.installments ≡ none
  not_scheduled_before s s' h =
      let t = steps clock row category admin_id s s' h in
      rw (ap (λ (x : Db). x.installments) t.activated) at
        (first_inserted t.active t.scheduled t.inserted).0

  scheduled_after :
      (o : Balances) (s s' : Db)
      → pos 0 ≤ℤ row.loan.disbursed_amount
      → IsConsistent o s.book
      → disburse_in_transaction clock row category admin_id s ≡ ok (tt, s')
      → HasInstallment first s'
  scheduled_after o s s' nonneg c h =
      let t = steps clock row category admin_id s s' h in
      let i = create_installments-IsInserted _ t.active t.scheduled t.inserted in
      let book : t.scheduled.book ≡ s.book = i.book ∙ ap (λ (x : Db). x.book) t.activated in
      let p =
        pay_out-IsPaidOut o clock row.loan category admin_id nonneg t.scheduled s'
          (subst (λ b. IsConsistent o b) (sym book) c) t.paid in
      subst (λ is. (x : Installment) × (find (is_same_installment first) is ≡ some x))
        (sym p.installments) (first_inserted t.active t.scheduled t.inserted).1

-- After a disbursement of a loan of at least one month and of an amount that is not negative, over a
-- ledger behind the balances, no disbursement of the same loan goes through, even by an
-- administrator who read the loan as approved before the first one.
pub disbursed_once :
    (o : Balances) (clock : Clock) (row : LoanTable) (category : ExpenseCategory) (admin_id : ℕ)
    (s s' : Db)
    → 0 < row.tenor
    → pos 0 ≤ℤ row.loan.disbursed_amount
    → IsConsistent o s.book
    → disburse_in_transaction clock row category admin_id s ≡ ok (tt, s')
    → (later : Clock) (category' : ExpenseCategory) (other_admin : ℕ) (after : Db)
    → disburse_in_transaction later row category' other_admin s' ≢ ok (tt, after)
disbursed_once o clock row category admin_id s s' m nonneg c h later category' other_admin after
      h' =
    let missing = not_scheduled_before later row category' other_admin m s' after h' in
    let (x, found) = scheduled_after clock row category admin_id m o s s' nonneg c h in
    cc (missing, found)
