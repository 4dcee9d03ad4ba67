-- ===== src/Loans/Dates.antt =====
-- When the installments of a loan fall due.
use be_lumbung_mesari.Prelude.{ℕ, ◌+◌, ◌≤◌, ◌<◌, ◌≡◌, leb, if◌then◌else◌, arith}
use be_lumbung_mesari.Calendar.{
  Date, days_in_month, set_month, set_date, after_short_month, days_in_month_bounds,
}
use be_lumbung_mesari.Loans.Schedule.{due_date}

-- On a day that the month has, the installment falls due on the 20th of that month; on a later day
-- it falls due a month late.
due_date_lem :
    (d : Date) (i : ℕ)
    → due_date d i ≡ (
        if leb d.day (days_in_month (d.month + i))
        then record { month = d.month + i; day = 20 }
        else record { month = d.month + i + 1; day = 20 })
unfolding due_date set_month set_date
due_date_lem d i = ground arith

-- After a disbursement by the 28th, each installment falls due one month after the one before.
due_date-monthly :
    (d : Date) (i : ℕ)
    → d.day ≤ 28
    → due_date d (i + 1) ≡ record { month = (due_date d i).month + 1; day = 20 }
unfolding due_date set_month set_date
due_date-monthly d i h =
    grind (arith, days_in_month_bounds (d.month + i), days_in_month_bounds (d.month + i + 1))

-- After a disbursement on a day that the `i`-th month does not have, that month is skipped, and two
-- installments fall due on the same day of the next.
pub due_date-collision :
    (d : Date) (i : ℕ)
    → d.day ≤ 31
    → days_in_month (d.month + i) < d.day
    → due_date d i ≡ due_date d (i + 1)
unfolding due_date set_month set_date
due_date-collision d i h short =
    let full = after_short_month (d.month + i) (omega arith) in grind (arith, full)
