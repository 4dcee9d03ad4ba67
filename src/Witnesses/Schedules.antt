-- ===== src/Witnesses/Schedules.antt =====
-- Runs of the loan calculations and of the schedule.
use be_lumbung_mesari.Prelude.{
  ℕ, ◌+◌, ◌*◌, ◌/◌, ◌≤◌, ℤ, pos, negsuc, ◌+ℤ◌, ◌-ℤ◌, ◌<ℤ◌, ◌≡◌, ◌↔◌, none, arith,
}
use be_lumbung_mesari.Calendar.{days_in_month}
use be_lumbung_mesari.Db.{LoanPeriod}
use be_lumbung_mesari.Loans.Rounding.{round_up_to_nearest_500_or_1000, round_up_least}
use be_lumbung_mesari.Loans.Payments.{rounded_monthly_principal, calculate_loan_payments}
use be_lumbung_mesari.Loans.Schedule.{due_date, installment_at, generate_installments}
use be_lumbung_mesari.Loans.Application.{CreateLoanDto}
use be_lumbung_mesari.Loans.Totals.{paid_in_all, paid_in_all_lem}
use be_lumbung_mesari.Loans.Plan.{IsNumeric, stored, sum_of, principal_sum, last_row_negative}
use be_lumbung_mesari.Loans.Dates.{due_date-collision}
use be_lumbung_mesari.Witnesses.Fixtures.{loan, clock}

-- Rounding half away from zero, as PostgreSQL does.
abbrev round_to_column : ℤ → ℤ
round_to_column (pos n) = pos ((n + 5000) / 10000)
round_to_column (negsuc n) = pos 0 -ℤ pos ((n + 5001) / 10000)

round_to_column-IsNumeric : IsNumeric round_to_column
unfolding ◌+ℤ◌
round_to_column-IsNumeric = record { shift = λ k x. ground arith }

-- 10,000 rupiah over twelve months: 1,000 rupiah a month is more than the whole in eleven.
abbrev small : CreateLoanDto
small = record { loan_period_id = 1; amount = 100000000; notes = none }

abbrev twelve : LoanPeriod
twelve = record { id = 1; tenor = 12; interest_rate = 100 }

abbrev two : LoanPeriod
two = record { id = 1; tenor = 2; interest_rate = 100 }

round_up_least_example :
    (k : ℕ) × (round_up_to_nearest_500_or_1000 1 15425 ≡ k * (500 * 1))
    × (15425 ≤ k * (500 * 1))
    × ((m : ℕ) → 15425 ≤ m * (500 * 1) → k * (500 * 1) ≤ m * (500 * 1))
round_up_least_example = round_up_least 1 15425 (omega arith)

paid_in_all_lem_example :
    ((calculate_loan_payments 100000000 100 12).total_payable
      ≤ paid_in_all (calculate_loan_payments 100000000 100 12) 12)
    × (paid_in_all (calculate_loan_payments 100000000 100 12) 12
          ≡ (calculate_loan_payments 100000000 100 12).total_payable
        ↔ (rounded_monthly_principal 100000000 12 * 11 ≤ 100000000))
paid_in_all_lem_example = paid_in_all_lem 100000000 100 12 (omega arith)

principal_sum_example :
    sum_of (λ i. i.principal_amount) (generate_installments loan 2 1 clock.date) ≡ pos 30000000
principal_sum_example = principal_sum loan 2 1 clock.date (omega arith)

last_row_negative_example :
    ((installment_at
        (stored round_to_column round_to_column-IsNumeric 200 clock.date 3 small twelve)
        12
        1
        clock.date
        12).principal_amount
      <ℤ pos 0)
    × ((installment_at
          (stored round_to_column round_to_column-IsNumeric 200 clock.date 3 small twelve)
          12
          1
          clock.date
          12).total_amount
        ≡ (installment_at
            (stored round_to_column round_to_column-IsNumeric 200 clock.date 3 small twelve)
            12
            1
            clock.date
            12).interest_amount)
unfolding rounded_monthly_principal round_up_to_nearest_500_or_1000
last_row_negative_example =
    last_row_negative round_to_column round_to_column-IsNumeric 200 clock.date 3 small twelve 1
      clock.date (omega arith)

-- Disbursed on 31 January 2026: February has no such day.
due_date-collision_example :
    due_date (record { month = 24312; day = 31 }) 1
    ≡ due_date (record { month = 24312; day = 31 }) 2
unfolding days_in_month
due_date-collision_example =
    due_date-collision (record { month = 24312; day = 31 }) 1 (omega arith) (omega arith)
