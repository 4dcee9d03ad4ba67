-- ===== src/Controllers/Privacy.antt =====
-- Members read their own records alone.
use be_lumbung_mesari.Prelude.{
  ℕ, ◌≡◌, refl, Bool, true, false, not, Option, none, some, [], String, arith, Bool-cases, inl, inr,
}
use be_lumbung_mesari.Exec.{not_found, forbidden, ok, err, reject_if}
use be_lumbung_mesari.Calendar.{Clock}
use be_lumbung_mesari.Db.{Db, Loan, MandatorySavings, User, UserRole}
use be_lumbung_mesari.Auth.Tokens.{Libraries, Secrets, UserJwt, can_activate}
use be_lumbung_mesari.Auth.Sessions.{request_user}
use be_lumbung_mesari.Loans.Repository.{LoanTable, find_by_id, find_installments_by_loan_id}
use be_lumbung_mesari.Loans.Application.{may_view, find_loan_by_id, find_installments_by_loan}
use be_lumbung_mesari.Loans.Listing.{LoansQueryDto, LoanWithUser, find_all_loans}
use be_lumbung_mesari.Users.Listing.{ListUsersQuery, find_all_users}
use be_lumbung_mesari.Reports.{MemberSavingsData, generate_mandatory_savings_report}
use be_lumbung_mesari.Savings.Listing.{
  find_all_mandatory_savings, SavingsQueryDto, MandatorySavingsWithUser,
  find_user_mandatory_savings,
}
use be_lumbung_mesari.Controllers.{catching}
use be_lumbung_mesari.Controllers.Callers.{is_answered, is_staff, IsReadBy, answered_to, for_staff}
use be_lumbung_mesari.Controllers.Reads.{
  reading, may_read, expected_or_internal, find_loan_route, find_installments_route,
  find_user_savings_route, bad_request_or_internal, find_all_loans_route, find_all_users_route,
  find_all_savings_route, report_route,
}

pub data PrivateRead : Type 0 where
  reads_loan : ℕ → PrivateRead
  reads_installments : ℕ → PrivateRead
  reads_savings : ℕ → SavingsQueryDto → PrivateRead
  lists_loans : LoansQueryDto → PrivateRead
  lists_users : ListUsersQuery → PrivateRead
  lists_savings : SavingsQueryDto → PrivateRead
  reads_report : ℕ → PrivateRead

-- How the database compares texts and orders rows.
pub record Orders : Type 0 where
  pub ilike : String → String → Bool
  pub loans : LoanWithUser → LoanWithUser → Bool
  pub users : User → User → Bool
  pub savings : MandatorySavingsWithUser → MandatorySavingsWithUser → Bool
  pub by_name : User → User → Bool
  pub in_order : MandatorySavings → MandatorySavings → Bool
  pub by_locale : MemberSavingsData → MemberSavingsData → Bool

abbrev pub borrower : Option LoanTable → Option ℕ
borrower none = none
borrower (some row) = some row.loan.user_id

-- Whose records are read; nobody in particular in a list of all.
abbrev pub owner : PrivateRead → Db → Option ℕ
owner (reads_loan id) s = borrower (find_by_id id s)
owner (reads_installments id) s = borrower (find_by_id id s)
owner (reads_savings user_id query) s = some user_id
owner _ s = none

abbrev pub may_read_of : User → Option ℕ → Bool
may_read_of w none = is_staff w.role_id
may_read_of w (some user_id) = may_read w.role_id w.id user_id

viewed :
    (role : UserRole) (user : UserJwt) (l : Loan)
    → may_view (record user { role = role }) l ≡ true
    → may_read role user.id l.user_id ≡ true
viewed UserRole.administrator user l h = refl
viewed UserRole.superadministrator user l h = refl
viewed UserRole.member user l h = ground (arith, h)

viewed_row :
    (o : Option LoanTable) (user : UserJwt) {A : Type 0} (answer : LoanTable → A) (w : User)
    → user ≡ request_user w
    → is_answered {A = A} (elim o [
      | none ↦ err not_found
      | some row ↦ elim (may_view user row.loan) [ true ↦ ok (answer row) | false ↦ err forbidden ]
    ])
      ≡ true
    → may_read_of w (borrower o) ≡ true
viewed_row none user answer w same h = absurd (cc h)
viewed_row (some row) user answer w same h = elim (Bool-cases (may_view user row.loan)) [
  | inr n ↦ absurd (cc (rw n at h))
  | inl t ↦ viewed w.role_id (request_user w) row.loan (rw same at t)
]

module _ (libraries : Libraries) (secrets : Secrets) (clock : Clock) (token : libraries.Token) where
  module _ (orders : Orders) where
    abbrev pub answers : PrivateRead → Db → Bool
    answers (reads_loan id) s = is_answered (find_loan_route libraries secrets clock token id s).0
    answers (reads_installments id) s =
        is_answered (find_installments_route libraries secrets clock token id s).0
    answers (reads_savings user_id query) s =
        is_answered
          (find_user_savings_route libraries secrets clock token orders.savings user_id query s).0
    answers (lists_loans query) s =
        is_answered
          (find_all_loans_route libraries secrets clock token orders.ilike orders.loans query s).0
    answers (lists_users query) s =
        is_answered
          (find_all_users_route libraries secrets clock token orders.ilike orders.users query s).0
    answers (lists_savings query) s =
        is_answered (find_all_savings_route libraries secrets clock token orders.savings query s).0
    answers (reads_report year) s =
        is_answered
          (report_route libraries secrets clock token orders.by_name orders.in_order
            orders.by_locale year s).0

    savings_of :
        (user_id : ℕ) (query : SavingsQueryDto) (w : User) (s : Db)
        → is_answered
            (catching expected_or_internal
              (reject_if
                (not (may_read w.role_id w.id user_id))
                forbidden
                (reading (find_user_mandatory_savings orders.savings user_id query clock.date)))
              s).0
          ≡ true
        → may_read w.role_id w.id user_id ≡ true
    savings_of user_id query w s h = elim (Bool-cases (may_read w.role_id w.id user_id)) [
      | inl t ↦ t
      | inr n ↦ absurd (cc (rw n at h))
    ]

    -- A request for a loan, its installments, the savings of a user, all loans, users or savings, or
    -- the report is answered only when the token verifies and names a stored user who is neither
    -- inactive nor rejected, and who is an administrator, a superadministrator, or the member whose
    -- loan or whose savings they are.
    pub reads_own :
        (r : PrivateRead) (s : Db)
        → answers r s ≡ true
        → IsReadBy libraries secrets clock token (λ w. may_read_of w (owner r s)) s
    unfolding find_loan_route find_installments_route find_user_savings_route find_loan_by_id
        find_installments_by_loan find_all_loans_route find_all_users_route find_all_savings_route
        report_route can_activate
    reads_own (PrivateRead.reads_loan id) s h =
        answered_to libraries secrets clock token [] (λ user. reading (find_loan_by_id id user)) s
          (λ w. may_read_of w (owner (PrivateRead.reads_loan id) s))
          (λ w a. viewed_row (find_by_id id s) (request_user w) (λ row. row) w refl a) h
    reads_own (PrivateRead.reads_installments id) s h =
        answered_to libraries secrets clock token []
          (λ user. reading (find_installments_by_loan id user)) s
          (λ w. may_read_of w (owner (PrivateRead.reads_installments id) s))
          (λ w a.
            viewed_row (find_by_id id s) (request_user w) (λ _. find_installments_by_loan_id id s) w
              refl a)
          h
    reads_own (PrivateRead.reads_savings user_id query) s h =
        answered_to libraries secrets clock token []
          (λ user. catching expected_or_internal (
            reject_if (not (may_read user.role user.id user_id)) forbidden
              (reading (find_user_mandatory_savings orders.savings user_id query clock.date))))
          s (λ w. may_read_of w (some user_id)) (λ w a. savings_of user_id query w s a) h
    reads_own (PrivateRead.lists_loans query) s h =
        for_staff libraries secrets clock token
          (λ _. reading (λ s. ok (find_all_loans orders.ilike orders.loans query none s))) s h
    reads_own (PrivateRead.lists_users query) s h =
        for_staff libraries secrets clock token
          (λ _. reading (λ s. ok (find_all_users orders.ilike orders.users query s))) s h
    reads_own (PrivateRead.lists_savings query) s h =
        for_staff libraries secrets clock token
          (λ _.
            catching bad_request_or_internal
              (reading (find_all_mandatory_savings orders.savings query clock.date)))
          s h
    reads_own (PrivateRead.reads_report year) s h =
        for_staff libraries secrets clock token
          (λ _. reading (λ s. ok (
            generate_mandatory_savings_report orders.by_name orders.in_order orders.by_locale year
              s)))
          s h
