-- ===== src/Loans/Repository.antt =====
-- The queries of `LoansRepository` (src/loans/loans.repository.ts), with the trigger and the keys
-- of the tables `loans` and `installments` (src/database/migrations).
use be_lumbung_mesari.Prelude.{
  ℕ, ◌+◌, ◌/◌, ℤ, pos, negsuc, ◌+ℤ◌, ◌-ℤ◌, ◌*ℤ◌, eq_ℤ, Bool, true, false, not, ◌&&◌, ◌||◌, ◌==◌,
  leb, ltb, Option, none, some, List, [], ◌∷◌, String, length, find, select, update_where,
  if◌then◌else◌,
}
use be_lumbung_mesari.Exec.{
  err, ok, database, too_many_loans, duplicate_key, missing_row, Tx, throw_if, ◌>>◌,
}
use be_lumbung_mesari.Calendar.{Date, date_leb}
use be_lumbung_mesari.Db.{Db, Loan, LoanPeriod, LoanStatus, Installment, InstallmentStatus}
use be_lumbung_mesari.Loans.Payments.{scale, find_loan_period}

-- A loan joined with its period.
pub record LoanTable : Type 0 where
  pub loan : Loan
  pub tenor : ℕ
  pub interest_rate : ℕ

abbrev pub find_loan : ℕ → Db → Option Loan
find_loan id s = find (λ l. l.id == id) s.loans

abbrev pub join_period : Loan → Option LoanPeriod → Option LoanTable
join_period l none = none
join_period l (some p) =
    some (record { loan = l; tenor = p.tenor; interest_rate = p.interest_rate })

unfoldable pub find_by_id : ℕ → Db → Option LoanTable
find_by_id id s = elim (find_loan id s) [
  | none ↦ none
  | some l ↦ join_period l (find_loan_period l.loan_period_id s)
]

abbrev pub is_pending : LoanStatus → Bool
is_pending LoanStatus.pending = true
is_pending _ = false

abbrev pub is_approved : LoanStatus → Bool
is_approved LoanStatus.approved = true
is_approved _ = false

-- `status IN ('pending', 'approved', 'active')`
abbrev pub is_open : LoanStatus → Bool
is_open LoanStatus.pending = true
is_open LoanStatus.approved = true
is_open LoanStatus.active = true
is_open _ = false

abbrev pub is_other_open : ℕ → ℕ → Loan → Bool
is_other_open user_id id l = l.user_id == user_id && is_open l.status && not (l.id == id)

-- `check_max_loans_per_user`, with the condition of its trigger.
unfoldable pub check_max_loans : Loan → Tx Db Unit
check_max_loans new s =
    throw_if
      (is_open new.status && leb 3 (length (select (is_other_open new.user_id new.id) s.loans)))
      (database too_many_loans) s

-- The INSERT of `createLoan`.
unfoldable pub insert_loan : Loan → Tx Db Loan
unfolding check_max_loans
insert_loan row s =
    let inserted = record row { id = s.next_id } in
    elim (check_max_loans inserted s) [
      | err e ↦ err e
      | ok _ ↦ ok (inserted, record s { loans = inserted ∷ s.loans; next_id = s.next_id + 1 })
    ]

-- An UPDATE of the loan with this key, which must be there.
unfoldable pub update_loan : ℕ → (Loan → Loan) → Tx Db Unit
unfolding check_max_loans
update_loan id f s = elim (find_loan id s) [
  | none ↦ err missing_row
  | some l ↦ elim (check_max_loans (f l) s) [
    | err e ↦ err e
    | ok _ ↦ ok (tt, record s { loans = update_where (λ x. x.id == id) f s.loans })
  ]
]

abbrev pub set_status : LoanStatus → Option ℕ → Option String → Date → Loan → Loan
set_status LoanStatus.approved by notes today l = record l {
  status = LoanStatus.approved;
  notes = notes;
  approved_by = by;
  approved_at = some today;
}
set_status status by notes today l = record l { status = status; notes = notes }

unfoldable pub update_loan_status : ℕ → LoanStatus → Option ℕ → Option String → Date → Tx Db Unit
unfolding update_loan
update_loan_status id status by notes today = update_loan id (set_status status by notes today)

abbrev pub set_active : Date → Loan → Loan
set_active today l = record l { status = LoanStatus.active; disbursed_at = some today }

unfoldable pub activate_loan : ℕ → Date → Tx Db Unit
unfolding update_loan
activate_loan id today = update_loan id (set_active today)

abbrev pub is_same_installment : Installment → Installment → Bool
is_same_installment a b = a.loan_id == b.loan_id && a.installment_number == b.installment_number

-- One row of the INSERT: a loan has a number once.
unfoldable pub insert_installment : Installment → Tx Db Unit
insert_installment row s = elim (find (is_same_installment row) s.installments) [
  | some _ ↦ err (database duplicate_key)
  | none ↦ ok (
    tt,
    record s {
      installments = record row { id = s.next_id } ∷ s.installments;
      next_id = s.next_id + 1;
    },
  )
]

unfoldable pub create_installments : List Installment → Tx Db Unit
unfolding insert_installment
create_installments [] s = ok (tt, s)
create_installments (row ∷ rows) s = (insert_installment row >> create_installments rows) s

abbrev pub find_installment_by_id : ℕ → Db → Option Installment
find_installment_by_id id s = find (λ i. i.id == id) s.installments

-- An UPDATE of the installment with this key, which must be there.
unfoldable pub update_installment : ℕ → (Installment → Installment) → Tx Db Unit
update_installment id f s = elim (find_installment_by_id id s) [
  | none ↦ err missing_row
  | some _ ↦ ok (tt, record s { installments = update_where (λ i. i.id == id) f s.installments })
]

abbrev pub set_paid : ℕ → Date → Installment → Installment
set_paid admin today i = record i {
  status = InstallmentStatus.paid;
  processed_by = admin;
  paid_at = some today;
}

abbrev pub set_overdue : Installment → Installment
set_overdue i = record i { status = InstallmentStatus.overdue }

abbrev pub is_paid : InstallmentStatus → Bool
is_paid InstallmentStatus.paid = true
is_paid _ = false

abbrev pub is_due : InstallmentStatus → Bool
is_due InstallmentStatus.due = true
is_due _ = false

abbrev pub is_overdue : InstallmentStatus → Bool
is_overdue InstallmentStatus.overdue = true
is_overdue _ = false

-- `ORDER BY loan_id, installment_number`
abbrev pub before : Installment → Installment → Bool
before a b =
    ltb a.loan_id b.loan_id
    || (a.loan_id == b.loan_id && leb a.installment_number b.installment_number)

abbrev pub insert_sorted : Installment → List Installment → List Installment
insert_sorted x [] = x ∷ []
insert_sorted x (y ∷ ys) =
    let rest = insert_sorted x ys in if before x y then x ∷ y ∷ ys else y ∷ rest

unfoldable pub in_order : List Installment → List Installment
in_order [] = []
in_order (x ∷ xs) = insert_sorted x (in_order xs)

unfoldable pub find_installments_by_loan_id : ℕ → Db → List Installment
find_installments_by_loan_id id s = in_order (select (λ i. i.loan_id == id) s.installments)

unfoldable pub find_overdue_installments : Date → Db → List Installment
find_overdue_installments cutoff s =
    in_order (select (λ i. is_due i.status && date_leb i.due_date cutoff) s.installments)

unfoldable pub count_overdue_installments : ℕ → Db → ℕ
count_overdue_installments id s =
    length (select (λ i. i.loan_id == id && is_overdue i.status) s.installments)

abbrev pub is_unpenalized : ℕ → Installment → Bool
is_unpenalized id i = i.loan_id == id && is_overdue i.status && eq_ℤ i.penalty_amount (pos 0)

abbrev pub first_of : List Installment → Option Installment
first_of [] = none
first_of (x ∷ _) = some x

unfoldable pub find_oldest_unpenalized : ℕ → Db → Option Installment
unfolding in_order
find_oldest_unpenalized id s = first_of (in_order (select (is_unpenalized id) s.installments))

-- `toFixed(4)`, on hundred-millionths of a rupiah.
abbrev pub to_fixed : ℤ → ℤ
to_fixed (pos n) = pos ((n + 5000) / scale)
to_fixed (negsuc n) = pos 0 -ℤ pos ((n + 5001) / scale)

-- The penalty is counted in hundred-millionths of a rupiah.
abbrev pub add_penalty : ℤ → Installment → Installment
add_penalty penalty i = record i {
  penalty_amount = to_fixed (i.penalty_amount *ℤ pos scale +ℤ penalty);
  total_amount = to_fixed (i.total_amount *ℤ pos scale +ℤ penalty);
}

unfoldable pub add_penalty_to_installment : ℕ → ℤ → Tx Db Unit
unfolding update_installment
add_penalty_to_installment id penalty = update_installment id (add_penalty penalty)
