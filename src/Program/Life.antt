-- ===== src/Program/Life.antt =====
-- The life of a loan over a run of the program.
use be_lumbung_mesari.Prelude.{ℕ, ◌+◌, ◌≤◌, ◌≡◌, refl, sym, subst, not, false, some, List}
use be_lumbung_mesari.Exec.{ok}
use be_lumbung_mesari.Calendar.{Date}
use be_lumbung_mesari.Db.{Db, Loan}
use be_lumbung_mesari.Loans.Repository.{
  LoanTable, find_loan, find_by_id, is_approved, set_active, activate_loan,
}
use be_lumbung_mesari.Program.{Env, Event, run}
use be_lumbung_mesari.Program.Steps.{run-Leaves}
use be_lumbung_mesari.Program.OfLoans.{IsOfLoans}
use be_lumbung_mesari.Program.OfLoans.Whole.{of_loans-IsKept}
use be_lumbung_mesari.Program.Progress.{
  Reaches, progressed, Continues, Advances, unchanged, updated, insert_loan-Continues,
  decide_loan-Continues, set_active-Advances, activate_loan-ok,
}

module _ (id : ℕ) (was : Loan) where
  activated :
      (today : Date) (key : ℕ) (row : LoanTable) (s s' : Db)
      → find_by_id key s ≡ some row
      → not (is_approved row.loan.status) ≡ false
      → Continues id was s
      → activate_loan row.loan.id today s ≡ ok (tt, s')
      → Continues id was s'
  activated today key row s s' found approved k e =
      let (done, there) = activate_loan-ok today key row s s' found e in
      let advances : (x : Loan)
          → find_loan row.loan.id s ≡ some x
          → Advances x (set_active today x) =
        λ x seen.
          let one : row.loan ≡ x = cc (there, seen) in
          set_active-Advances today x
            (subst (λ (y : Loan). not (is_approved y.status) ≡ false) one approved) in
      subst (Continues id was) (sym done)
        (updated id was row.loan.id (set_active today) s (λ x. refl) advances k)

  Continues-IsOfLoans : IsOfLoans (Continues id was)
  Continues-IsOfLoans = record {
    unchanged = unchanged id was;
    inserted = insert_loan-Continues id was;
    decided = decide_loan-Continues id was;
    activated = activated;
  }

-- Whatever requests, visits and jobs come, whole and in any order: a loan that is found by a key
-- that has been drawn is found after the run, as it was but for its status, the data of its
-- decision and the date of its disbursement; and its status is the old one or has come from it by
-- an approval or a rejection while pending and by a disbursement while approved.
pub run-Continues :
    (env : Env) (es : List (Event env)) (s : Db) (id : ℕ) (l : Loan)
    → find_loan id s ≡ some l
    → id + 1 ≤ s.next_id
    → (l' : Loan) × (find_loan id (run env es s) ≡ some l')
      × (l' ≡ progressed l l')
      × Reaches l.status l'.status
run-Continues env es s id l found old =
    let start : Continues id l s = record {
      loan = l;
      found = found;
      terms = refl;
      reached = Reaches.here;
      old = old;
    } in
    let k =
      run-Leaves env (Continues id l) (of_loans-IsKept env _ (Continues-IsOfLoans id l)) es s
        start in
    (k.loan, k.found, k.terms, k.reached)
