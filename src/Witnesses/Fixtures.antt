-- ===== src/Witnesses/Fixtures.antt =====
-- Small tables for the concrete runs.
use be_lumbung_mesari.Prelude.{pos, ◌+ℤ◌, refl, none, some, List, [], ◌∷◌, arith}
use be_lumbung_mesari.Exec.{Result, ok, err}
use be_lumbung_mesari.Calendar.{Clock}
use be_lumbung_mesari.Cashbook.{Balances, Book}
use be_lumbung_mesari.Cashbook.Ledger.{IsConsistent, owned_sum}
use be_lumbung_mesari.Db.{
  Db, ExpenseCategory, ExpenseSource, IncomeCategory, Loan, LoanStatus, Installment,
  InstallmentStatus, MandatorySavings, SavingsStatus,
}

-- The state and the value of a step.
abbrev pub after {ℓ} : {A S : Type ℓ} → Result (A × S) → S → S
after (ok (_, s')) s = s'
after (err _) s = s

abbrev pub value {ℓ} : {A S : Type ℓ} → Result (A × S) → A → A
value (ok (a, _)) d = a
value (err _) d = d

abbrev pub opening : Balances
opening = record { shu = pos 3000000; capital = pos 50000000; total = pos 53000000 }

abbrev pub book : Book
book = record { balances = opening; transactions = []; next_id = 1 }

pub book-IsConsistent : IsConsistent opening book
unfolding owned_sum ◌+ℤ◌
book-IsConsistent = record {
  shu_sum = refl;
  capital_sum = refl;
  total_sum = refl;
  shu_nonneg = omega arith;
  capital_nonneg = omega arith;
  rows = tt;
}

abbrev pub clock : Clock
clock = record { date = record { month = 24302; day = 5 }; instant = 777 }

abbrev pub loan : Loan
loan = record {
  id = 7;
  user_id = 3;
  loan_period_id = 1;
  principal_amount = pos 30000000;
  admin_fee_amount = pos 600000;
  disbursed_amount = pos 29400000;
  interest_amount = pos 300000;
  monthly_payment = pos 15300000;
  last_month_payment = pos 15300000;
  total_payable_amount = pos 30600000;
  start_date = record { month = 24301; day = 2 };
  end_date = record { month = 24303; day = 1 };
  status = LoanStatus.approved;
  approved_by = some 1;
  approved_at = some (record { month = 24301; day = 3 });
  disbursed_at = none;
  notes = none;
}

abbrev pub pending_loan : Loan
pending_loan = record loan { id = 8; status = LoanStatus.pending }

abbrev pub late : Installment
late = record {
  id = 21;
  loan_id = 9;
  installment_number = 1;
  due_date = record { month = 24300; day = 20 };
  principal_amount = pos 5000000;
  interest_amount = pos 100000;
  penalty_amount = pos 50000;
  total_amount = pos 5150000;
  paid_at = none;
  status = InstallmentStatus.overdue;
  processed_by = 1;
}

abbrev pub unpenalized : Installment
unpenalized = record late { id = 22; installment_number = 2; penalty_amount = pos 0 }

abbrev pub just_due : Installment
just_due = record late {
  id = 23;
  installment_number = 3;
  penalty_amount = pos 0;
  status = InstallmentStatus.due;
}

abbrev pub savings : MandatorySavings
savings = record {
  id = 31;
  user_id = 3;
  period = 24300;
  amount = pos 500000;
  status = SavingsStatus.due;
  processed_by = none;
  paid_at = none;
}

abbrev pub categories : List IncomeCategory
categories =
    record { id = 1; code = "installment_principal" }
    ∷ record { id = 2; code = "loan_interest" }
    ∷ record { id = 3; code = "loan_admin_fee" }
    ∷ record { id = 4; code = "late_payment_penalty" }
    ∷ record { id = 5; code = "mandatory_savings" }
    ∷ record { id = 6; code = "principal_savings" }
    ∷ []

abbrev pub disbursement_category : ExpenseCategory
disbursement_category = record {
  id = 2;
  code = "loan_disbursement";
  default_source = ExpenseSource.capital;
}

abbrev pub db : Db
db = record {
  book = book;
  expense_categories =
      record { id = 1; code = "office"; default_source = ExpenseSource.auto }
      ∷ disbursement_category
      ∷ [];
  expenses = [];
  income_categories = categories;
  incomes = [];
  loan_periods = record { id = 1; tenor = 2; interest_rate = 100 } ∷ [];
  loans =
      loan ∷ pending_loan ∷ record loan { id = 9; user_id = 4; status = LoanStatus.active } ∷ [];
  installments = late ∷ unpenalized ∷ just_due ∷ [];
  principal_savings = [];
  mandatory_savings = savings ∷ [];
  users = [];
  next_id = 100;
}
