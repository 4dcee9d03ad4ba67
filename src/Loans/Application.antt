-- ===== src/Loans/Application.antt =====
-- A loan before money moves: `createLoan`, `approveLoan`, `rejectLoan` and the reads with their
-- permissions (src/loans/loans.service.ts). `store` is how PostgreSQL rounds to a NUMERIC column
-- of four decimals, on hundred-millionths of a rupiah; `admin_fee_rate` is configured.
use be_lumbung_mesari.Prelude.{
  ℕ, ◌+◌, ◌*◌, ℤ, pos, ◌-ℤ◌, Bool, true, false, not, ◌||◌, ◌==◌, Option, none, some, List, String,
}
use be_lumbung_mesari.Exec.{
  Result, ok, err, Error, database, not_found, bad_request, forbidden, Tx, Exec, throw_if, gets,
  or_throw, transaction, with_row, ◌>>=◌, ◌>>◌,
}
use be_lumbung_mesari.Calendar.{Date}
use be_lumbung_mesari.Db.{Db, Loan, LoanPeriod, LoanStatus, Installment, UserRole}
use be_lumbung_mesari.Auth.Tokens.{UserJwt}
use be_lumbung_mesari.Loans.Payments.{scale, find_loan_period, calculate_loan_payments}
use be_lumbung_mesari.Loans.Repository.{
  LoanTable, find_by_id, is_pending, insert_loan, update_loan_status, find_installments_by_loan_id,
}

pub record CreateLoanDto : Type 0 where
  pub loan_period_id : ℕ
  pub amount : ℕ
  pub notes : Option String

-- The row that `createLoan` inserts, as its columns store it.
abbrev pub loan_data : (ℤ → ℤ) → ℕ → Date → ℕ → CreateLoanDto → LoanPeriod → Loan
loan_data store admin_fee_rate today user_id dto p =
    let d = calculate_loan_payments dto.amount p.interest_rate p.tenor in
    let admin_fee = dto.amount * admin_fee_rate in
    record {
      id = 0;
      user_id = user_id;
      loan_period_id = dto.loan_period_id;
      principal_amount = pos dto.amount;
      admin_fee_amount = store (pos admin_fee);
      disbursed_amount = store (pos (dto.amount * scale) -ℤ pos admin_fee);
      interest_amount = store (pos d.monthly_interest);
      monthly_payment = store (pos d.monthly_payment);
      last_month_payment = store (pos d.last_month_payment);
      total_payable_amount = store (pos d.total_payable);
      start_date = today;
      end_date = record { month = today.month + p.tenor; day = 1 };
      status = LoanStatus.pending;
      approved_by = none;
      approved_at = none;
      disbursed_at = none;
      notes = dto.notes;
    }

-- What the database raises is answered as a bad request.
abbrev pub as_bad_request : Error → Error
as_bad_request (database _) = bad_request
as_bad_request e = e

unfoldable pub create_loan : (ℤ → ℤ) → ℕ → Date → ℕ → CreateLoanDto → Exec Db Loan
create_loan store admin_fee_rate today user_id dto s =
    with_row (find_loan_period dto.loan_period_id s) not_found
      (λ p t. elim (insert_loan (loan_data store admin_fee_rate today user_id dto p) t) [
        | ok (loan, t') ↦ (ok loan, t')
        | err e ↦ (err (as_bad_request e), t)
      ])
      s

-- The common part of both decisions: the loan is there and pending.
unfoldable pub decide_loan : ℕ → LoanStatus → Option ℕ → Option String → Date → Tx Db Unit
decide_loan id status by notes today = do
  found ← gets (find_by_id id)
  row ← or_throw found not_found
  throw_if (not (is_pending row.loan.status)) bad_request
  update_loan_status id status by notes today

unfoldable pub approve_loan : Date → ℕ → Option String → ℕ → Exec Db Unit
unfolding decide_loan
approve_loan today id notes admin_id =
    transaction (decide_loan id LoanStatus.approved (some admin_id) notes today)

unfoldable pub reject_loan : Date → ℕ → String → Exec Db Unit
unfolding decide_loan
reject_loan today id reason =
    transaction (decide_loan id LoanStatus.rejected none (some reason) today)

abbrev is_admin : UserRole → Bool
is_admin UserRole.member = false
is_admin _ = true

abbrev pub may_view : UserJwt → Loan → Bool
may_view user loan = is_admin user.role || loan.user_id == user.id

unfoldable pub find_loan_by_id : ℕ → UserJwt → Db → Result LoanTable
find_loan_by_id id user s = elim (find_by_id id s) [
  | none ↦ err not_found
  | some row ↦ elim (may_view user row.loan) [ true ↦ ok row | false ↦ err forbidden ]
]

unfoldable pub find_installments_by_loan : ℕ → UserJwt → Db → Result (List Installment)
find_installments_by_loan id user s = elim (find_by_id id s) [
  | none ↦ err not_found
  | some row ↦ elim (may_view user row.loan) [
    | true ↦ ok (find_installments_by_loan_id id s)
    | false ↦ err forbidden
  ]
]
