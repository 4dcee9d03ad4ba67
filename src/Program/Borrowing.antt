-- ===== src/Program/Borrowing.antt =====
-- The methods on loans and savings leave what is kept, whether they return or throw.
use be_lumbung_mesari.Prelude.{
  ℕ, ◌+◌, ◌-◌, ◌*◌, ℤ, Option, none, some, List, [], ◌∷◌, String, Option-cases, inl, inr,
}
use be_lumbung_mesari.Exec.{
  Result, ok, err, Result-cases, not_found, transaction, with_row-keeps, reject_if-keeps,
  transaction-keeps,
}
use be_lumbung_mesari.Exec.Keeps.{Leaves, ok-Preserves, method_rules}
use be_lumbung_mesari.Calendar.{Clock, Date}
use be_lumbung_mesari.Db.{Db, Loan, LoanPeriod, LoanStatus, Installment, MandatorySavings}
use be_lumbung_mesari.Loans.Payments.{find_loan_period}
use be_lumbung_mesari.Loans.Repository.{insert_loan}
use be_lumbung_mesari.Loans.Application.{
  CreateLoanDto, loan_data, as_bad_request, create_loan, approve_loan, reject_loan,
}
use be_lumbung_mesari.Loans.Overdue.{
  process_loan_in_transaction, process_groups, process_overdue_installments,
}
use be_lumbung_mesari.Loans.Service.{
  disburse_in_transaction, disburse_loan, settle_installment, find_expense_category_by_code,
}
use be_lumbung_mesari.Savings.Service.{
  settle_mandatory_savings, create_yearly_mandatory_savings, generate_remaining_year_savings,
  create_for_members, create_year_for_members,
}
use be_lumbung_mesari.Savings.Records.{
  insert_or_ignore, insert_all_or_ignore, get_active_member_ids, records_from, create_from_month,
  create_yearly_for_users,
}
use be_lumbung_mesari.Program.{Env}
use be_lumbung_mesari.Program.Kept.{IsDecision, IsKept}

module _ (env : Env) (P : Db → Type 0) (kept : IsKept env P) where
  answered-Leaves :
      (today : Date) (user_id : ℕ) (dto : CreateLoanDto) (p : LoanPeriod) (s : Db)
      → P s
      → P
          (elim (insert_loan (loan_data env.store env.admin_fee_rate today user_id dto p) s)
            as (λ _. Result Loan × Db) [
              | ok (loan, t') ↦ (ok loan, t')
              | err e ↦ (err (as_bad_request e), s)
            ]).1
  answered-Leaves today user_id dto p s h =
      let row = loan_data env.store env.admin_fee_rate today user_id dto p in
      elim (Result-cases (insert_loan row s)) [
        | inr (x, e) ↦ rw e h
        | inl ((l, t), e) ↦ rw e (ok-Preserves (kept.create_loan today user_id dto p) s l t h e)
      ]

  pub create_loan-Leaves :
      (today : Date) (user_id : ℕ) (dto : CreateLoanDto)
      → Leaves P (create_loan env.store env.admin_fee_rate today user_id dto)
  unfolding create_loan
  create_loan-Leaves today user_id dto = record {
    holds = λ s h. elim (Option-cases (find_loan_period dto.loan_period_id s)) [
      | inl e ↦ rw (e, create_loan) h
      | inr (p, e) ↦ rw (e, create_loan) (answered-Leaves today user_id dto p s h)
    ];
  }

  pub approve_loan-Leaves :
      (today : Date) (id : ℕ) (notes : Option String) (admin_id : ℕ)
      → Leaves P (approve_loan today id notes admin_id)
  unfolding approve_loan
  approve_loan-Leaves today id notes admin_id =
      let keeps =
        kept.decide_loan id LoanStatus.approved (some admin_id) notes today IsDecision.approval in
      search (method_rules, keeps)

  pub reject_loan-Leaves :
      (today : Date) (id : ℕ) (reason : String) → Leaves P (reject_loan today id reason)
  unfolding reject_loan
  reject_loan-Leaves today id reason =
      let keeps =
        kept.decide_loan id LoanStatus.rejected none (some reason) today IsDecision.rejection in
      search (method_rules, keeps)

  pub disburse_loan-Leaves :
      (clock : Clock) (id admin_id : ℕ) → Leaves P (disburse_loan clock id admin_id)
  unfolding disburse_loan
  disburse_loan-Leaves clock id admin_id = record {
    holds = λ s h. with_row-keeps P _ _ _ s h (λ row found. reject_if-keeps P _ _ _ s h (λ approved.
        with_row-keeps P (find_expense_category_by_code "loan_disbursement" s) not_found
          (λ category. transaction (disburse_in_transaction clock row category admin_id)) s h
          (λ category _.
            transaction-keeps P (disburse_in_transaction clock row category admin_id) s
              (λ _ s' e. kept.disburse clock id row category admin_id s s' found approved h e) h)));
  }

  pub settle_installment-Leaves :
      (clock : Clock) (id admin_id : ℕ) → Leaves P (settle_installment clock id admin_id)
  unfolding settle_installment
  settle_installment-Leaves clock id admin_id =
      let keeps = kept.settle_installment in search (method_rules, keeps)

  process_groups-Leaves :
      (groups : List (ℕ × List Installment)) (s : Db) → P s → P (process_groups groups s).1
  unfolding process_groups
  process_groups-Leaves [] s h = h
  process_groups-Leaves ((k, xs) ∷ groups) s h =
      elim (Result-cases (process_loan_in_transaction k xs s)) [
        | inr (e, failed) ↦ rw (failed, process_groups) h
        | inl ((_, t), went) ↦
            rw (went, process_groups)
              (process_groups-Leaves groups t (ok-Preserves (kept.process_loan k xs) s tt t h went))
      ]

  pub process_overdue-Leaves :
      (today : Date) (s : Db) → P s → P (process_overdue_installments today s).1
  unfolding process_overdue_installments
  process_overdue-Leaves today s h = process_groups-Leaves _ s h

  pub settle_mandatory-Leaves :
      (clock : Clock) (id admin_id : ℕ) → Leaves P (settle_mandatory_savings clock id admin_id)
  unfolding settle_mandatory_savings
  settle_mandatory-Leaves clock id admin_id =
      let keeps = kept.settle_mandatory in search (method_rules, keeps)

  insert_all-Leaves :
      (rows : List MandatorySavings) (s : Db) → P s → P (insert_all_or_ignore rows s)
  unfolding insert_all_or_ignore
  insert_all-Leaves [] s h = h
  insert_all-Leaves (row ∷ rows) s h =
      insert_all-Leaves rows (insert_or_ignore row s) (kept.add_savings row s h)

  create_for-Leaves :
      (ids : List ℕ) (amount : ℤ) (year month : ℕ) (s : Db)
      → P s
      → P (create_for_members ids amount year month s)
  unfolding create_from_month
  create_for-Leaves [] amount year month s h = h
  create_for-Leaves (u ∷ us) amount year month s h =
      insert_all-Leaves (records_from (u ∷ us) amount (year * 12 + month) (12 - month)) s h

  pub generate_savings-Leaves :
      (configured : ℤ) (today : Date) (s : Db)
      → P s
      → P (generate_remaining_year_savings configured today s)
  unfolding generate_remaining_year_savings
  generate_savings-Leaves configured today s h =
      create_for-Leaves (get_active_member_ids s) _ _ _ s h

  create_year-Leaves :
      (ids : List ℕ) (amount : ℤ) (year : ℕ) (s : Db)
      → P s
      → P (create_year_for_members ids amount year s)
  unfolding create_yearly_for_users
  create_year-Leaves [] amount year s h = h
  create_year-Leaves (u ∷ us) amount year s h =
      insert_all-Leaves (records_from (u ∷ us) amount (year * 12) 12) s h

  pub create_yearly-Leaves :
      (configured : ℤ) (today : Date) (s : Db)
      → P s
      → P (create_yearly_mandatory_savings configured today s)
  unfolding create_yearly_mandatory_savings
  create_yearly-Leaves configured today s h = create_year-Leaves (get_active_member_ids s) _ _ s h
