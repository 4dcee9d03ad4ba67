-- ===== src/Loans/Schedule.antt =====
-- `generateInstallments` (src/loans/loans.service.ts): the rows of a loan that is disbursed.
use be_lumbung_mesari.Prelude.{
  ℕ, zero, suc, ◌+◌, ◌-◌, ℤ, pos, ◌-ℤ◌, ◌*ℤ◌, List, [], ◌∷◌, none, ◌==◌, if◌then◌else◌,
}
use be_lumbung_mesari.Calendar.{Date, set_month, set_date}
use be_lumbung_mesari.Db.{Loan, Installment, InstallmentStatus}

-- The 20th of the `i`-th month after the disbursement.
unfoldable pub due_date : Date → ℕ → Date
unfolding set_month set_date
due_date disbursement_date i =
    set_date 20 (set_month (disbursement_date.month + i) disbursement_date)

abbrev pub monthly_principal : Loan → ℤ
monthly_principal loan = loan.monthly_payment -ℤ loan.interest_amount

-- What the first months leave; it is not clamped here.
abbrev pub remaining_principal : Loan → ℕ → ℤ
remaining_principal loan tenor = loan.principal_amount -ℤ monthly_principal loan *ℤ pos (tenor - 1)

abbrev pub installment_at : Loan → ℕ → ℕ → Date → ℕ → Installment
installment_at loan tenor processed_by disbursement_date i = record {
  id = 0;
  loan_id = loan.id;
  installment_number = i;
  due_date = due_date disbursement_date i;
  principal_amount = if i == tenor then remaining_principal loan tenor else monthly_principal loan;
  interest_amount = loan.interest_amount;
  penalty_amount = pos 0;
  total_amount = if i == tenor then loan.last_month_payment else loan.monthly_payment;
  paid_at = none;
  status = InstallmentStatus.due;
  processed_by = processed_by;
}

-- The loop from `i`, with the rounds that are left.
unfoldable pub installments_from : Loan → ℕ → ℕ → Date → ℕ → ℕ → List Installment
installments_from loan tenor processed_by date i zero = []
installments_from loan tenor processed_by date i (suc rounds) =
    installment_at loan tenor processed_by date i
    ∷ installments_from loan tenor processed_by date (i + 1) rounds

unfoldable pub generate_installments : Loan → ℕ → ℕ → Date → List Installment
unfolding installments_from
generate_installments loan tenor processed_by date =
    installments_from loan tenor processed_by date 1 tenor
