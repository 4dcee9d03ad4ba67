-- ===== src/Program/OfLoans.antt =====
-- What has to be shown of a property of the loans: the transactions that are not about loans leave
-- them alone and only draw new keys.
use be_lumbung_mesari.Prelude.{ℕ, ◌≤◌, ◌≡◌, false, not, Option, some, String}
use be_lumbung_mesari.Exec.{ok}
use be_lumbung_mesari.Exec.Keeps.{Preserves}
use be_lumbung_mesari.Calendar.{Date}
use be_lumbung_mesari.Db.{Db, Loan, LoanStatus}
use be_lumbung_mesari.Loans.Repository.{
  LoanTable, find_by_id, is_approved, insert_loan, activate_loan,
}
use be_lumbung_mesari.Loans.Application.{decide_loan}
use be_lumbung_mesari.Program.Kept.{IsDecision}
pub mod Money
pub mod People
pub mod Whole

pub record IsOfLoans (P : Db → Type 0) : Type 0 where
  pub unchanged : (s s' : Db) → s'.loans ≡ s.loans → s.next_id ≤ s'.next_id → P s → P s'
  pub inserted : (row : Loan) → Preserves P (insert_loan row)
  pub decided :
      (id : ℕ) (status : LoanStatus) (by : Option ℕ) (notes : Option String) (today : Date)
      → IsDecision status
      → Preserves P (decide_loan id status by notes today)
  pub activated :
      (today : Date) (id : ℕ) (row : LoanTable) (s s' : Db)
      → find_by_id id s ≡ some row
      → not (is_approved row.loan.status) ≡ false
      → P s
      → activate_loan row.loan.id today s ≡ ok (tt, s')
      → P s'
