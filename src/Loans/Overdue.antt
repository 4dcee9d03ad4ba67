-- ===== src/Loans/Overdue.antt =====
-- The monthly run over late installments: `processOverdueInstallments` and
-- `processLoanOverdueInstallments` (src/loans/loans.service.ts).
use be_lumbung_mesari.Prelude.{
  ℕ, ◌+◌, ℤ, pos, ◌*ℤ◌, Option, none, some, List, [], ◌∷◌, ◌++◌, ◌==◌, leb, if◌then◌else◌,
}
use be_lumbung_mesari.Exec.{
  ok, err, not_found, internal, Tx, Exec, gets, or_throw, pure, when, ◌>>=◌, ◌>>◌,
}
use be_lumbung_mesari.Calendar.{Date}
use be_lumbung_mesari.Db.{Db, Installment}
use be_lumbung_mesari.Loans.Repository.{
  LoanTable, find_by_id, count_overdue_installments, update_installment, set_overdue,
  find_oldest_unpenalized, add_penalty_to_installment, find_overdue_installments,
}

-- principal · rate, in hundred-millionths of a rupiah.
abbrev pub penalty_amount : LoanTable → ℤ
penalty_amount row = row.loan.principal_amount *ℤ pos row.interest_rate

abbrev pub penalize : ℤ → Option Installment → Tx Db Unit
penalize penalty none = pure tt
penalize penalty (some i) = add_penalty_to_installment i.id penalty

-- The oldest late installment without a penalty gets one, from the second that is late.
unfoldable pub penalize_oldest : ℕ → ℤ → ℕ → Tx Db Unit
penalize_oldest loan_id penalty total =
    when (leb 2 total) (do oldest ← gets (find_oldest_unpenalized loan_id); penalize penalty oldest)

unfoldable pub mark_and_penalize : ℕ → Installment → LoanTable → Tx Db Unit
unfolding penalize_oldest
mark_and_penalize loan_id i row = do
  previously ← gets (count_overdue_installments loan_id)
  update_installment i.id set_overdue
  penalize_oldest loan_id (penalty_amount row) (previously + 1)

-- The transaction for one loan; only the first of its late installments is marked.
unfoldable pub process_loan_in_transaction : ℕ → List Installment → Tx Db Unit
unfolding mark_and_penalize
process_loan_in_transaction loan_id [] = do
  found ← gets (find_by_id loan_id)
  or_throw found not_found
  or_throw none internal
process_loan_in_transaction loan_id (i ∷ _) = do
  found ← gets (find_by_id loan_id)
  row ← or_throw found not_found
  mark_and_penalize loan_id i row

-- `reduce` to a record of lists, in order of the first key seen.
abbrev add_to_group : Installment → List (ℕ × List Installment) → List (ℕ × List Installment)
add_to_group i [] = (i.loan_id, i ∷ []) ∷ []
add_to_group i ((k, xs) ∷ groups) =
    let rest = add_to_group i groups in
    if k == i.loan_id then (k, xs ++ (i ∷ [])) ∷ groups else (k, xs) ∷ rest

unfoldable pub group_by_loan :
    List Installment → List (ℕ × List Installment) → List (ℕ × List Installment)
group_by_loan [] groups = groups
group_by_loan (i ∷ is) groups = group_by_loan is (add_to_group i groups)

-- One transaction for each loan; a loan that fails stops the run.
unfoldable pub process_groups : List (ℕ × List Installment) → Exec Db Unit
process_groups [] s = (ok tt, s)
process_groups ((k, xs) ∷ groups) s = elim (process_loan_in_transaction k xs s) [
  | err e ↦ (err e, s)
  | ok (_, s') ↦ process_groups groups s'
]

unfoldable pub process_overdue_installments : Date → Exec Db Unit
unfolding process_groups group_by_loan
process_overdue_installments today s =
    process_groups
      (group_by_loan (find_overdue_installments (record { month = today.month; day = 20 }) s) []) s
