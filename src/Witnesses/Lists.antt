-- ===== src/Witnesses/Lists.antt =====
-- Runs of the pages, of the lists and of the report.
use be_lumbung_mesari.Prelude.{
  ℕ, refl, Bool, leb, none, ◌+◌, ◌≡◌, true, List, [], ◌∷◌, arith, map, select,
}
use be_lumbung_mesari.Exec.{ok}
use be_lumbung_mesari.Calendar.{days_in_month, date_leb}
use be_lumbung_mesari.Db.{Db, MandatorySavings, SavingsStatus}
use be_lumbung_mesari.Savings.Listing.{SavingsQueryDto, days_ago, period_date, period_filter}
use be_lumbung_mesari.Savings.Periods.{IsDay, day_number, period_filter-day_number}
use be_lumbung_mesari.Users.Service.{approve_in_transaction}
use be_lumbung_mesari.Pagination.{paginate, process_pages}
use be_lumbung_mesari.Pagination.Complete.{process_pages-for_each}
use be_lumbung_mesari.Reports.{is_paid_in, generate_mandatory_savings_report}
use be_lumbung_mesari.Reports.Totals.{sum_for, HasTotals, report-HasTotals}
use be_lumbung_mesari.Transactions.{is_entry, list_transactions, to_transaction_response}
use be_lumbung_mesari.Transactions.Entries.{list_transactions-paginate}
use be_lumbung_mesari.Witnesses.Fixtures.{after, clock, savings}
use be_lumbung_mesari.Witnesses.People.{members}

abbrev numbers : List ℕ
numbers = 1 ∷ 2 ∷ 3 ∷ 4 ∷ 5 ∷ []

process_pages-for_each_example :
    process_pages 6 (λ page. paginate page 2 numbers) (λ x total. total + x) 1 0 ≡ 15
process_pages-for_each_example =
    process_pages-for_each (λ x total. total + x) 2 numbers 0 (omega arith)

abbrev paid_up : Db
paid_up = record members {
  mandatory_savings =
      record savings { user_id = 5; status = SavingsStatus.paid }
      ∷ record savings { id = 32; user_id = 5; period = 24301; status = SavingsStatus.paid }
      ∷ [];
}

report-HasTotals_example :
    HasTotals
      (λ id. sum_for id (select (is_paid_in 2025 paid_up) paid_up.mandatory_savings))
      (generate_mandatory_savings_report
        (λ a b. true)
        (λ a b. true)
        (λ a b. true)
        2025
        paid_up).members
report-HasTotals_example = report-HasTotals (λ a b. true) (λ a b. true) 2025 paid_up (λ a b. true)

march : IsDay clock.date
unfolding days_in_month
march = (omega arith, omega arith)

abbrev no_period : SavingsQueryDto
no_period = record { lowered = none; year = none; page = none; limit = none }

abbrev recent : MandatorySavings → Bool
recent m = date_leb (days_ago 30 clock.date) (period_date m)

asked : period_filter no_period clock.date ≡ ok recent
unfolding period_filter
asked = refl

period_filter-day_number_example :
    recent savings ≡ leb (day_number clock.date) (day_number (period_date savings) + 30)
period_filter-day_number_example =
    period_filter-day_number no_period clock.date recent refl march (omega arith) asked savings

abbrev booked : Db
booked = after (approve_in_transaction clock 5 1 members) members

list_transactions-paginate_example :
    list_transactions 1 10 booked
    ≡ ok (
        paginate 1 10
          (map (to_transaction_response booked) (select is_entry booked.book.transactions)))
list_transactions-paginate_example = list_transactions-paginate 1 10 booked
