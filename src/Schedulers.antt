-- ===== src/Schedulers.antt =====
-- The jobs of src/loans/loans.scheduler.ts and src/savings/savings.scheduler.ts, given the answer to
-- `pg_try_advisory_lock`: without the lock a run is skipped, and what a run throws is only logged.
use be_lumbung_mesari.Prelude.{ℤ, Bool, true, false}
use be_lumbung_mesari.Calendar.{Date}
use be_lumbung_mesari.Db.{Db}
use be_lumbung_mesari.Loans.Overdue.{process_overdue_installments}
use be_lumbung_mesari.Savings.Service.{create_yearly_mandatory_savings}

unfoldable pub check_overdue_installments : Bool → Date → Db → Db
unfolding process_overdue_installments
check_overdue_installments false today s = s
check_overdue_installments true today s = (process_overdue_installments today s).1

unfoldable pub create_yearly_savings : Bool → ℤ → Date → Db → Db
unfolding create_yearly_mandatory_savings
create_yearly_savings false configured today s = s
create_yearly_savings true configured today s = create_yearly_mandatory_savings configured today s
