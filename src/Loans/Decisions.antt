-- ===== src/Loans/Decisions.antt =====
-- Approval and rejection: what they change, and that a loan is decided once.
use be_lumbung_mesari.Prelude.{
  ℕ, ◌≡◌, refl, true, false, Option, some, String, ◌==◌, find-update_where, update_where, inl, inr,
  arith, Option-cases, Bool-cases,
}
use be_lumbung_mesari.Exec.{Result-cases, ok, err, bad_request}
use be_lumbung_mesari.Calendar.{Date}
use be_lumbung_mesari.Db.{Db, Loan, LoanStatus}
use be_lumbung_mesari.Loans.Payments.{find_loan_period}
use be_lumbung_mesari.Loans.Repository.{
  LoanTable, find_loan, join_period, find_by_id, is_pending, check_max_loans, update_loan,
  update_loan_status, set_status,
}
use be_lumbung_mesari.Loans.Application.{decide_loan}

check_max_loans-ok :
    (l : Loan) (s : Db) (p : Unit × Db)
    → check_max_loans l s ≡ ok p
    → check_max_loans l s ≡ ok (tt, s)
unfolding check_max_loans
check_max_loans-ok l s p h = ground arith

checked_update :
    (id : ℕ) (f : Loan → Loan) (l : Loan) (s s' : Db)
    → find_loan id s ≡ some l
    → update_loan id f s ≡ ok (tt, s')
    → (p : Unit × Db) × (check_max_loans (f l) s ≡ ok p)
      × (s' ≡ record s { loans = update_where (λ x. x.id == id) f s.loans })
unfolding update_loan
checked_update id f l s s' found h = elim (Result-cases (check_max_loans (f l) s)) [
  | inl (p, e) ↦ (p, e, cc (rw (update_loan, found, e) at h))
  | inr (x, e) ↦ absurd (cc (rw (update_loan, found, e) at h))
]

-- An UPDATE of a loan that went through.
pub update_loan-ok :
    (id : ℕ) (f : Loan → Loan) (s s' : Db)
    → update_loan id f s ≡ ok (tt, s')
    → (s' ≡ record s { loans = update_where (λ x. x.id == id) f s.loans })
      × ((l : Loan) × (find_loan id s ≡ some l) × (check_max_loans (f l) s ≡ ok (tt, s)))
unfolding update_loan
update_loan-ok id f s s' h = elim (Option-cases (find_loan id s)) [
  | inl missing ↦ absurd (cc (rw (update_loan, missing) at h))
  | inr (l, found) ↦
      let (p, e, q) = checked_update id f l s s' found h in
      (q, (l, found, check_max_loans-ok (f l) s p e))
]

-- A row that is found has its loan.
pub find_by_id-loan :
    (id : ℕ) (s : Db) (row : LoanTable)
    → find_by_id id s ≡ some row
    → find_loan id s ≡ some row.loan
unfolding find_by_id
find_by_id-loan id s row h = ground arith

join_period-keeps :
    (l l' : Loan) (row : LoanTable) (s : Db)
    → join_period l (find_loan_period l.loan_period_id s) ≡ some row
    → l'.loan_period_id ≡ l.loan_period_id
    → join_period l' (find_loan_period l'.loan_period_id s) ≡ some (record row { loan = l' })
join_period-keeps l l' row s h e = rw e (ground arith)

-- The row after an UPDATE of its loan that keeps the keys.
find_by_id-update :
    (id : ℕ) (f : Loan → Loan) (s : Db) (row : LoanTable)
    → ((l : Loan) → (f l).id ≡ l.id)
    → ((l : Loan) → (f l).loan_period_id ≡ l.loan_period_id)
    → find_by_id id s ≡ some row
    → find_by_id id (record s { loans = update_where (λ x. x.id == id) f s.loans })
      ≡ some (record row { loan = f row.loan })
unfolding find_by_id
find_by_id-update id f s row key period h =
    let found = find_by_id-loan id s row h in
    rw (find_by_id, find-update_where (λ x. x.id == id) f (λ x t. rw key t) s.loans row.loan found)
      (join_period-keeps row.loan (f row.loan) row s (rw (find_by_id, found) at h)
        (period row.loan))

-- What a decision that went through has done.
pub record IsDecided (id : ℕ) (f : Loan → Loan) (s s' : Db) : Type 0 where
  pub row : LoanTable
  pub was : find_by_id id s ≡ some row
  pub pending : is_pending row.loan.status ≡ true
  pub checked : check_max_loans (f row.loan) s ≡ ok (tt, s)
  pub updated : s' ≡ record s { loans = update_where (λ x. x.id == id) f s.loans }
  pub now : find_by_id id s' ≡ some (record row { loan = f row.loan })

set_status-id :
    (status : LoanStatus) (by : Option ℕ) (notes : Option String) (today : Date) (l : Loan)
    → ((set_status status by notes today l).id ≡ l.id)
      × ((set_status status by notes today l).loan_period_id ≡ l.loan_period_id)
      × ((set_status status by notes today l).status ≡ status)
set_status-id LoanStatus.pending by notes today l = (refl, refl, refl)
set_status-id LoanStatus.approved by notes today l = (refl, refl, refl)
set_status-id LoanStatus.rejected by notes today l = (refl, refl, refl)
set_status-id LoanStatus.active by notes today l = (refl, refl, refl)
set_status-id LoanStatus.completed by notes today l = (refl, refl, refl)

module _ (id : ℕ) (status : LoanStatus) (by : Option ℕ) (notes : Option String) (today : Date) where
  decided_row :
      (row : LoanTable) (s s' : Db)
      → find_by_id id s ≡ some row
      → decide_loan id status by notes today s ≡ ok (tt, s')
      → (is_pending row.loan.status ≡ true)
        × (update_loan id (set_status status by notes today) s ≡ ok (tt, s'))
  unfolding decide_loan update_loan_status
  decided_row row s s' found h = elim (Bool-cases (is_pending row.loan.status)) [
    | inl t ↦ (t, rw (decide_loan, found, t) at h)
    | inr n ↦ absurd (cc (rw (decide_loan, found, n) at h))
  ]

  IsDecided-from :
      (row : LoanTable) (s s' : Db)
      → find_by_id id s ≡ some row
      → decide_loan id status by notes today s ≡ ok (tt, s')
      → IsDecided id (set_status status by notes today) s s'
  IsDecided-from row s s' found h =
      let (pending, update) = decided_row row s s' found h in
      let f = set_status status by notes today in
      let (e, (l, same, checked)) = update_loan-ok id f s s' update in
      let eq : l ≡ row.loan = cc (find_by_id-loan id s row found, same) in
      record {
        row = row;
        was = found;
        pending = pending;
        checked = rw eq at checked;
        updated = e;
        now = rw e (
            find_by_id-update id f s row (λ x. (set_status-id status by notes today x).0)
              (λ x. (set_status-id status by notes today x).1) found);
      }

  -- A decision that goes through found the loan pending, and changes nothing but that loan.
  pub decide_loan-IsDecided :
      (s s' : Db)
      → decide_loan id status by notes today s ≡ ok (tt, s')
      → IsDecided id (set_status status by notes today) s s'
  unfolding decide_loan
  decide_loan-IsDecided s s' h = elim (Option-cases (find_by_id id s)) [
    | inl missing ↦ absurd (cc (rw (decide_loan, missing) at h))
    | inr (row, found) ↦ IsDecided-from row s s' found h
  ]

  -- After a decision other than to leave the loan pending, every other decision is refused.
  pub decided_once :
      (s s' : Db)
      → decide_loan id status by notes today s ≡ ok (tt, s')
      → is_pending status ≡ false
      → (other : LoanStatus) (by' : Option ℕ) (notes' : Option String) (later : Date)
      → decide_loan id other by' notes' later s' ≡ err bad_request
  unfolding decide_loan
  decided_once s s' h n other by' notes' later =
      let d = decide_loan-IsDecided s s' h in
      rw (decide_loan, d.now) (rw ((set_status-id status by notes today d.row.loan).2, n) refl)
