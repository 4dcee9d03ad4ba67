-- ===== src/Loans/Payments.antt =====
-- `calculateLoanPayments` and `calculateLoan` (src/loans/loans.service.ts).
-- An amount `principal` and a rate are counted in ten-thousandths; their product, and all payments
-- here, are counted in hundred-millionths of a rupiah, so that nothing is rounded but by the code.
use be_lumbung_mesari.Prelude.{
  ℕ, ◌+◌, ◌-◌, ◌*◌, ◌/◌, ℤ, pos, ◌-ℤ◌, Option, none, some, ◌==◌, if◌then◌else◌, find,
}
use be_lumbung_mesari.Exec.{Result, ok, err, not_found}
use be_lumbung_mesari.Db.{Db, LoanPeriod}
use be_lumbung_mesari.Loans.Rounding.{round_up_to_nearest_500_or_1000}

-- Ten-thousandths to a rupiah.
abbrev pub scale : ℕ
scale = 10000

pub record LoanPayments : Type 0 where
  pub monthly_interest : ℕ
  pub monthly_payment : ℕ
  pub last_month_payment : ℕ
  pub total_payable : ℕ

-- principal / tenor, rounded up, in ten-thousandths: the division is carried out last, on a
-- multiple of the tenor.
unfoldable pub rounded_monthly_principal : ℕ → ℕ → ℕ
rounded_monthly_principal principal tenor =
    round_up_to_nearest_500_or_1000 (scale * tenor) principal / tenor

-- `Decimal.max(principal - paid, 0)`: on ℕ a difference stops at zero.
abbrev pub last_month_principal : ℕ → ℕ → ℕ
last_month_principal principal tenor =
    principal - rounded_monthly_principal principal tenor * (tenor - 1)

unfoldable pub calculate_loan_payments : ℕ → ℕ → ℕ → LoanPayments
calculate_loan_payments principal interest_rate tenor =
    let monthly_interest = principal * interest_rate in
    record {
      monthly_interest = monthly_interest;
      monthly_payment = rounded_monthly_principal principal tenor * scale + monthly_interest;
      last_month_payment = last_month_principal principal tenor * scale + monthly_interest;
      total_payable = principal * scale + monthly_interest * tenor;
    }

pub record CalculateLoanResponse : Type 0 where
  pub principal_amount : ℕ
  pub admin_fee : ℕ
  pub disbursed_amount : ℤ
  pub tenor : ℕ
  pub interest_rate : ℕ
  pub monthly_interest : ℕ
  pub monthly_payment : ℕ
  pub last_month_payment : Option ℕ

abbrev pub find_loan_period : ℕ → Db → Option LoanPeriod
find_loan_period id s = find (λ p. p.id == id) s.loan_periods

-- The last payment is shown only if it differs.
unfoldable pub calculate_loan : ℕ → ℕ → ℕ → Db → Result CalculateLoanResponse
calculate_loan admin_fee_rate amount loan_period_id s = elim (find_loan_period loan_period_id s) [
  | none ↦ err not_found
  | some p ↦
      let d = calculate_loan_payments amount p.interest_rate p.tenor in
      ok (record {
        principal_amount = amount * scale;
        admin_fee = amount * admin_fee_rate;
        disbursed_amount = pos (amount * scale) -ℤ pos (amount * admin_fee_rate);
        tenor = p.tenor;
        interest_rate = p.interest_rate;
        monthly_interest = d.monthly_interest;
        monthly_payment = d.monthly_payment;
        last_month_payment =
            if d.last_month_payment == d.monthly_payment then none else some d.last_month_payment;
      })
]
