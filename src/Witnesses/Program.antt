-- ===== src/Witnesses/Program.antt =====
-- A request of a superadministrator, and a run of the program.
use be_lumbung_mesari.Prelude.{
  ℕ, Bool-cases, inl, inr, pos, Bool, true, ◌==◌, List, arith, ◌≡◌, ◌≢◌, refl, sym, ap, ◌∙◌, Option,
  none, some, [], ◌∷◌,
}
use be_lumbung_mesari.Db.{Db, Loan, User, UserStatus, UserRole, LoanStatus}
use be_lumbung_mesari.Loans.Application.{
  find_loan_by_id, CreateLoanDto, create_loan, decide_loan, approve_loan,
}
use be_lumbung_mesari.Loans.Repository.{
  find_loan, find_by_id, update_loan_status, update_loan, check_max_loans,
}
use be_lumbung_mesari.Users.Repository.{find_user_by_id}
use be_lumbung_mesari.Users.Service.{find_user}
use be_lumbung_mesari.Auth.Tokens.{jwt_guard, validate, can_activate}
use be_lumbung_mesari.Controllers.{guarded, approve_loan_route}
use be_lumbung_mesari.Controllers.Reads.{find_loan_route}
use be_lumbung_mesari.Controllers.Callers.{IsReadBy}
use be_lumbung_mesari.Controllers.Privacy.{
  Orders, PrivateRead, owner, may_read_of, answers, reads_own,
}
use be_lumbung_mesari.Program.{Env, Request, Visit, Job, Event, serve, run}
use be_lumbung_mesari.Program.Roles.{IsCalledBy, may, changed_by_caller}
use be_lumbung_mesari.Program.Well.{IsWell}
use be_lumbung_mesari.Program.Runs.{IsSane, run-IsWell}
use be_lumbung_mesari.Program.Life.{run-Continues}
use be_lumbung_mesari.Program.Limit.{IsLimited, run-IsLimited, run-refused}
use be_lumbung_mesari.Program.Keys.{IsIndexed}
use be_lumbung_mesari.Program.Progress.{Reaches, progressed}
use be_lumbung_mesari.Exec.{Error, err}
use be_lumbung_mesari.Witnesses.Fixtures.{opening, book-IsConsistent, clock, db, loan}
use be_lumbung_mesari.Witnesses.People.{libraries, secrets, call, waiting}

abbrev chief : User
chief = record waiting { id = 1; role_id = UserRole.superadministrator; status = UserStatus.active }

abbrev office : Db
office = record db { users = chief ∷ [] }

abbrev bearer : libraries.Token
bearer = libraries.sign 700 3600000 "access" (record {
  sub = 1;
  username = "made";
  email = "made@example.com";
  role_id = UserRole.member;
  status = UserStatus.active;
})

abbrev env : Env
env = record {
  libraries = libraries;
  secrets = secrets;
  store = λ x. x;
  admin_fee_rate = 200;
  principal_savings_amount = pos 1000000;
  mandatory_savings_amount = pos 500000;
}

abbrev approval : Request
approval = Request.approves_loan 8 none

abbrev status_of : Db → Option LoanStatus
unfolding find_by_id
status_of s = elim (find_by_id 8 s) [ none ↦ none | some row ↦ some row.loan.status ]

approved : status_of (serve env clock bearer approval office) ≡ some LoanStatus.approved
unfolding serve approve_loan_route guarded jwt_guard validate find_user find_user_by_id can_activate
    approve_loan decide_loan update_loan_status update_loan check_max_loans find_by_id
approved = refl

pending : status_of office ≡ some LoanStatus.pending
unfolding find_by_id
pending = refl

changed : serve env clock bearer approval office ≢ office
changed same =
    let clash : some LoanStatus.approved ≡ some LoanStatus.pending =
      sym approved ∙ ap status_of same ∙ pending in
    cc clash

changed_by_caller_example : IsCalledBy env clock bearer (may approval) office
changed_by_caller_example = changed_by_caller env clock bearer approval office changed

abbrev founders : ℕ → Bool
founders id = id == 1

office-IsWell : IsWell opening founders office
office-IsWell = (book-IsConsistent, omega arith, tt, ((λ n a. absurd (cc n)), tt))

sane : IsSane env
sane = record { rounds = λ x h. h; fee = omega arith }

-- An approval, two disbursements, the monthly run, and a login that fails.
abbrev events : List (Event env)
events =
    Event.request clock bearer approval
    ∷ Event.request clock bearer (Request.disburses_loan 7)
    ∷ Event.request clock bearer (Request.disburses_loan 8)
    ∷ Event.job clock (Job.checks_overdue_installments true)
    ∷ Event.visit call (Visit.logs_in "made" "?")
    ∷ []

run-IsWell_example : IsWell opening founders (run env events office)
run-IsWell_example = run-IsWell opening founders env sane events office office-IsWell

abbrev member_loan : Loan
member_loan = record loan { id = 21; user_id = 5; status = LoanStatus.active }

-- A member with three loans that were paid out.
abbrev branch : Db
branch = record office {
  loans =
      member_loan
      ∷ record member_loan { id = 22 }
      ∷ record member_loan { id = 23 }
      ∷ record loan { id = 8; status = LoanStatus.pending }
      ∷ [];
}

branch-IsIndexed : IsIndexed branch
branch-IsIndexed = (
  (omega arith, (omega arith, (omega arith, (omega arith, tt)))),
  ((refl, (refl, (refl, tt))), ((refl, (refl, tt)), ((refl, tt), (tt, tt)))),
)

branch-IsLimited : IsLimited branch.loans
branch-IsLimited user_id = elim (Bool-cases (5 == user_id)) [
  | inl t ↦ elim (Bool-cases (loan.user_id == user_id)) [
    | inl u ↦ absurd (ground (arith, t, u))
    | inr n ↦ rw (t, n) (omega arith)
  ]
  | inr m ↦ elim (Bool-cases (loan.user_id == user_id)) [
    | inl u ↦ rw (m, u) (omega arith)
    | inr n ↦ rw (m, n) (omega arith)
  ]
]

run-IsLimited_example : IsLimited (run env events branch).loans
run-IsLimited_example = run-IsLimited env events branch branch-IsIndexed branch-IsLimited

abbrev next_dto : CreateLoanDto
next_dto = record { amount = 1000000; loan_period_id = 1; notes = none }

run-refused_example :
    (e : Error) × (create_loan env.store env.admin_fee_rate clock.date 5 next_dto
        (run env events branch)
      ≡ (err e, run env events branch))
run-refused_example =
    run-refused env events branch 5 branch-IsIndexed (omega arith) clock.date next_dto

run-Continues_example :
    (l' : Loan) × (find_loan 8 (run env events branch) ≡ some l')
    × (l' ≡ progressed (record loan { id = 8; status = LoanStatus.pending }) l')
    × Reaches LoanStatus.pending l'.status
run-Continues_example =
    run-Continues env events branch 8 (record loan { id = 8; status = LoanStatus.pending }) refl
      (omega arith)

abbrev desk : Db
desk = record db {
  users = record chief { role_id = UserRole.member } ∷ [];
  loans = record loan { user_id = 1 } ∷ [];
}

abbrev orders : Orders
orders = record {
  ilike = λ a b. true;
  loans = λ a b. true;
  users = λ a b. true;
  savings = λ a b. true;
  by_name = λ a b. true;
  in_order = λ a b. true;
  by_locale = λ a b. true;
}

answered : answers libraries secrets clock bearer orders (PrivateRead.reads_loan 7) desk ≡ true
unfolding find_loan_route find_loan_by_id guarded jwt_guard validate find_user find_user_by_id
    can_activate find_by_id
answered = refl

reads_own_example :
    IsReadBy libraries secrets clock bearer
      (λ w. may_read_of w (owner (PrivateRead.reads_loan 7) desk))
      desk
reads_own_example =
    reads_own libraries secrets clock bearer orders (PrivateRead.reads_loan 7) desk answered
