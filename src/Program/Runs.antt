-- ===== src/Program/Runs.antt =====
-- Every run of the program keeps the state well.
use be_lumbung_mesari.Prelude.{
  ℕ, ◌*◌, ◌≤◌, ℤ, pos, ◌≤ℤ◌, ◌-ℤ◌, leb_ℤ, int_laws, ◌≡◌, Bool, false, Option, none, some, List,
  ◌==◌, All, All-find, arith,
}
use be_lumbung_mesari.Exec.Keeps.{ok-Preserves}
use be_lumbung_mesari.Calendar.{Date}
use be_lumbung_mesari.Cashbook.{Balances}
use be_lumbung_mesari.Db.{Db, Loan, LoanPeriod, Expense}
use be_lumbung_mesari.Loans.Payments.{scale}
use be_lumbung_mesari.Loans.Repository.{LoanTable, find_by_id}
use be_lumbung_mesari.Loans.Application.{CreateLoanDto, loan_data}
use be_lumbung_mesari.Loans.Decisions.{find_by_id-loan}
use be_lumbung_mesari.Expenses.{bad_amount}
use be_lumbung_mesari.Expenses.Changes.{IsNonnegAmount}
use be_lumbung_mesari.Program.{Env, Event, run}
use be_lumbung_mesari.Program.Kept.{IsKept}
use be_lumbung_mesari.Program.Well.{
  IsPayable, IsSpent, IsWell, insert_loan-Preserves, decide_loan-Preserves, process_loan-Preserves,
  insert_or_ignore-Leaves,
}
use be_lumbung_mesari.Program.Money.{
  create_expense-Preserves, update_expense-Preserves, delete_expense-Preserves, disburse-Preserves,
  settle_installment-Preserves, settle_mandatory-Preserves,
}
use be_lumbung_mesari.Program.People.{
  create_user-Preserves, update-Preserves, verify-Preserves, approve-Preserves, reject-Preserves,
}
use be_lumbung_mesari.Program.Steps.{run-Leaves}

-- Rounding keeps amounts from becoming negative, and the fee of a loan is at most the loan.
pub record IsSane (env : Env) : Type 0 where
  pub rounds : (x : ℤ) → pos 0 ≤ℤ x → pos 0 ≤ℤ env.store x
  pub fee : env.admin_fee_rate ≤ scale

-- What is paid out is not negative.
loan_data-IsPayable :
    (env : Env) (today : Date) (user_id : ℕ) (dto : CreateLoanDto) (p : LoanPeriod)
    → IsSane env
    → IsPayable (loan_data env.store env.admin_fee_rate today user_id dto p)
loan_data-IsPayable env today user_id dto p sane =
    let small = sane.fee in
    let product : dto.amount * env.admin_fee_rate ≤ dto.amount * scale = grind arith in
    sane.rounds (pos (dto.amount * scale) -ℤ pos (dto.amount * env.admin_fee_rate))
      (omega (int_laws, product))

-- The loan of a joined row is in the table.
find_by_id-IsPayable :
    (id : ℕ) (s : Db) (row : LoanTable)
    → find_by_id id s ≡ some row
    → All IsPayable s.loans
    → IsPayable row.loan
find_by_id-IsPayable id s row h v =
    All-find IsPayable (λ (l : Loan). l.id == id) s.loans row.loan v (find_by_id-loan id s row h)

positive_amount : (x : ℤ) → leb_ℤ x (pos 0) ≡ false → pos 0 ≤ℤ x
positive_amount x h = ground arith

positive_amounts : (x : Option ℤ) → bad_amount (λ x. leb_ℤ x (pos 0)) x ≡ false → IsNonnegAmount x
positive_amounts none h = tt
positive_amounts (some x) h = positive_amount x h

module _ (o : Balances) (exempt : ℕ → Bool) (env : Env) (sane : IsSane env) where
  IsWell-IsKept : IsKept env (IsWell o exempt)
  IsWell-IsKept = record {
    create_loan = λ today user_id dto p.
        insert_loan-Preserves o exempt _ (loan_data-IsPayable env today user_id dto p sane);
    decide_loan =
        λ id status by notes today _. decide_loan-Preserves o exempt id status by notes today;
    disburse = λ clock id row category admin_id s s' found _ h e.
        ok-Preserves
          (disburse-Preserves o exempt clock row category admin_id
            (find_by_id-IsPayable id s row found h.1))
          s tt s' h e;
    settle_installment = settle_installment-Preserves o exempt;
    process_loan = process_loan-Preserves o exempt;
    settle_mandatory = settle_mandatory-Preserves o exempt;
    add_savings = insert_or_ignore-Leaves o exempt;
    create_expense = λ now dto uid positive.
        create_expense-Preserves o exempt now dto uid (positive_amount dto.amount positive);
    update_expense = λ now id dto existing category s s' positive found h e.
        ok-Preserves
          (update_expense-Preserves o exempt now id dto existing category
            (positive_amounts dto.amount positive)
            (All-find IsSpent (λ (x : Expense). x.id == id) s.expenses existing h.2 found))
          s tt s' h e;
    delete_expense = delete_expense-Preserves o exempt;
    create_user = create_user-Preserves o exempt;
    update_user = update-Preserves o exempt;
    verify_user = verify-Preserves o exempt;
    approve_user = approve-Preserves o exempt;
    reject_user = reject-Preserves o exempt;
  }

  -- Whatever requests, visits and jobs come, whole and in any order, by anyone and at any time: if
  -- rounding does not make an amount negative and the fee is at most the loan, then from a state in
  -- which the ledger is behind the balances, no loan pays out and no expense takes a negative amount
  -- and every active user, but for given ones, has paid the principal savings, the run ends in such
  -- a state.
  pub run-IsWell :
      (es : List (Event env)) (s : Db) → IsWell o exempt s → IsWell o exempt (run env es s)
  run-IsWell es s h = run-Leaves env (IsWell o exempt) IsWell-IsKept es s h
