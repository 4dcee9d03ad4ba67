-- ===== src/Program/OfLoans/Whole.antt =====
-- All transactions of the program keep a property of the loans.
use be_lumbung_mesari.Db.{Db}
use be_lumbung_mesari.Program.{Env}
use be_lumbung_mesari.Program.Kept.{IsKept}
use be_lumbung_mesari.Program.OfLoans.{IsOfLoans}
use be_lumbung_mesari.Program.OfLoans.Money.{
  create_expense-Preserves, update_expense-Preserves, delete_expense-Preserves, disburse-Preserves,
  settle_installment-Preserves, process_loan-Preserves, settle_mandatory-Preserves, add_savings,
}
use be_lumbung_mesari.Program.OfLoans.People.{
  create_user-Preserves, update-Preserves, verify-Preserves, approve-Preserves, reject-Preserves,
}
use be_lumbung_mesari.Exec.Keeps.{ok-Preserves}

pub of_loans-IsKept : (env : Env) (P : Db → Type 0) → IsOfLoans P → IsKept env P
of_loans-IsKept env P of_loans = record {
  create_loan = λ today user_id dto p. of_loans.inserted _;
  decide_loan = of_loans.decided;
  disburse = disburse-Preserves P of_loans;
  settle_installment = settle_installment-Preserves P of_loans;
  process_loan = process_loan-Preserves P of_loans;
  settle_mandatory = settle_mandatory-Preserves P of_loans;
  add_savings = add_savings P of_loans;
  create_expense = λ now dto uid _. create_expense-Preserves P of_loans now dto uid;
  update_expense = λ now id dto existing category s s' _ _ h e.
      ok-Preserves (update_expense-Preserves P of_loans now id dto existing category) s tt s' h e;
  delete_expense = delete_expense-Preserves P of_loans;
  create_user = λ c _. create_user-Preserves P of_loans c;
  update_user = λ id changes _. update-Preserves P of_loans id changes;
  verify_user = verify-Preserves P of_loans;
  approve_user = approve-Preserves P of_loans;
  reject_user = reject-Preserves P of_loans;
}
