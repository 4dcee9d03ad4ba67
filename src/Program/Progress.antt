-- ===== src/Program/Progress.antt =====
-- How a loan changes: what the applications, the decisions and the disbursements make of a loan
-- that is followed by its key.
use be_lumbung_mesari.Prelude.{
  ℕ, ◌+◌, ◌≤◌, ◌≡◌, refl, sym, ap, ◌∙◌, subst, Bool, true, false, not, some, Option, ◌==◌, ==_iff,
  String, find, find-test, find-update_other, find-update_missed, update_where, arith, Bool-cases,
  inl, inr,
}
use be_lumbung_mesari.Exec.{ok, Result-cases}
use be_lumbung_mesari.Exec.Keeps.{Preserves, from-Preserves}
use be_lumbung_mesari.Calendar.{Date}
use be_lumbung_mesari.Db.{Db, Loan, LoanStatus}
use be_lumbung_mesari.Loans.Repository.{
  LoanTable, find_by_id, activate_loan, find_loan, is_pending, is_approved, check_max_loans,
  insert_loan, set_status, set_active,
}
use be_lumbung_mesari.Loans.Application.{decide_loan}
use be_lumbung_mesari.Loans.Decisions.{find_by_id-loan, update_loan-ok, decide_loan-IsDecided}
use be_lumbung_mesari.Program.Kept.{IsDecision}

-- One step of a loan.
pub data Becomes : LoanStatus → LoanStatus → Type 0 where
  approved : Becomes LoanStatus.pending LoanStatus.approved
  rejected : Becomes LoanStatus.pending LoanStatus.rejected
  paid_out : Becomes LoanStatus.approved LoanStatus.active

pub data Reaches (a : LoanStatus) : LoanStatus → Type 0 where
  here : Reaches a a
  next : {b c : LoanStatus} → Reaches a b → Becomes b c → Reaches a c

-- A loan with its progress taken from another row: all else is as agreed.
abbrev pub progressed : Loan → Loan → Loan
progressed l now = record l {
  status = now.status;
  approved_by = now.approved_by;
  approved_at = now.approved_at;
  disbursed_at = now.disbursed_at;
  notes = now.notes;
}

-- The loan is there, on its old terms, and its status has come from the old one.
pub record Continues (id : ℕ) (was : Loan) (s : Db) : Type 0 where
  pub loan : Loan
  pub found : find_loan id s ≡ some loan
  pub terms : loan ≡ progressed was loan
  pub reached : Reaches was.status loan.status
  pub old : id + 1 ≤ s.next_id

-- A change of one loan.
abbrev pub Advances : Loan → Loan → Type 0
Advances l l' = (l' ≡ progressed l l') × Becomes l.status l'.status

module _ (id : ℕ) (was : Loan) where
  -- What leaves the loans alone.
  pub unchanged :
      (s s' : Db)
      → s'.loans ≡ s.loans
      → s.next_id ≤ s'.next_id
      → Continues id was s
      → Continues id was s'
  unchanged s s' same later k =
      let old = k.old in
      record {
        loan = k.loan;
        found = ap (find (λ l. l.id == id)) same ∙ k.found;
        terms = k.terms;
        reached = k.reached;
        old = omega arith;
      }

  advanced :
      (s : Db) (l' : Loan) (k : Continues id was s)
      → Advances k.loan l'
      → (l' ≡ progressed was l') × Reaches was.status l'.status
  advanced s l' k (terms, step) =
      (terms ∙ ap (λ l. progressed l l') k.terms, Reaches.next k.reached step)

  -- The UPDATE of a loan.
  pub updated :
      (key : ℕ) (f : Loan → Loan) (s : Db)
      → ((l : Loan) → (f l).id ≡ l.id)
      → ((l : Loan) → find_loan key s ≡ some l → Advances l (f l))
      → Continues id was s
      → Continues id was (record s { loans = update_where (λ l. l.id == key) f s.loans })
  updated key f s keyed advances k =
      let test : Loan → Bool = λ l. l.id == id in
      let target : Loan → Bool = λ l. l.id == key in
      let seen : (l : Loan) → test (f l) ≡ test l = λ l. ap (λ n. n == id) (keyed l) in
      elim (Bool-cases (target k.loan)) [
        | inr n ↦ record {
          loan = k.loan;
          found = find-update_missed test target f seen s.loans k.loan k.found n;
          terms = k.terms;
          reached = k.reached;
          old = k.old;
        }
        | inl t ↦
            let same : id ≡ key =
              sym ((==_iff k.loan.id id).0 (find-test test s.loans k.loan k.found))
              ∙ (==_iff k.loan.id key).0 t in
            let there : find_loan key s ≡ some k.loan =
              subst (λ n. find_loan n s ≡ some k.loan) same k.found in
            let (terms, reached) = advanced s (f k.loan) k (advances k.loan there) in
            record {
              loan = f k.loan;
              found = find-update_other test target f seen s.loans k.loan k.found t;
              terms = terms;
              reached = reached;
              old = k.old;
            }
      ]

  pub insert_loan-Continues : (row : Loan) → Preserves (Continues id was) (insert_loan row)
  unfolding insert_loan
  insert_loan-Continues row = record {
    holds = λ s k. elim (Result-cases (check_max_loans (record row { id = s.next_id }) s)) [
      | inr (x, e) ↦ rw (e, insert_loan) tt
      | inl (u, e) ↦
          let old = k.old in
          let other : (s.next_id == id) ≡ false = ground arith in
          rw (e, insert_loan)
            (record {
              loan = k.loan;
              found = rw other k.found;
              terms = k.terms;
              reached = k.reached;
              old = omega arith;
            })
    ];
  }

was_pending : (status : LoanStatus) → is_pending status ≡ true → status ≡ LoanStatus.pending
was_pending LoanStatus.pending t = refl
was_pending LoanStatus.approved t = absurd (cc t)
was_pending LoanStatus.rejected t = absurd (cc t)
was_pending LoanStatus.active t = absurd (cc t)
was_pending LoanStatus.completed t = absurd (cc t)

was_approved :
    (status : LoanStatus) → not (is_approved status) ≡ false → status ≡ LoanStatus.approved
was_approved LoanStatus.approved t = refl
was_approved LoanStatus.pending t = absurd (cc t)
was_approved LoanStatus.rejected t = absurd (cc t)
was_approved LoanStatus.active t = absurd (cc t)
was_approved LoanStatus.completed t = absurd (cc t)

module _ (by : Option ℕ) (notes : Option String) (today : Date) where
  pub set_status-id :
      {status : LoanStatus}
      → IsDecision status
      → (l : Loan) → (set_status status by notes today l).id ≡ l.id
  set_status-id IsDecision.approval l = refl
  set_status-id IsDecision.rejection l = refl

  set_status-Advances :
      {status : LoanStatus}
      → IsDecision status
      → (l : Loan) → is_pending l.status ≡ true
      → Advances l (set_status status by notes today l)
  set_status-Advances IsDecision.approval l t = (
    refl,
    subst (λ x. Becomes x LoanStatus.approved) (sym (was_pending l.status t)) Becomes.approved,
  )
  set_status-Advances IsDecision.rejection l t = (
    refl,
    subst (λ x. Becomes x LoanStatus.rejected) (sym (was_pending l.status t)) Becomes.rejected,
  )

pub set_active-Advances :
    (today : Date) (l : Loan) → not (is_approved l.status) ≡ false → Advances l (set_active today l)
set_active-Advances today l t = (
  refl,
  subst (λ x. Becomes x LoanStatus.active) (sym (was_approved l.status t)) Becomes.paid_out,
)

-- A disbursement finds the approved loan that was read, and makes it active.
pub activate_loan-ok :
    (today : Date) (id : ℕ) (row : LoanTable) (s s' : Db)
    → find_by_id id s ≡ some row
    → activate_loan row.loan.id today s ≡ ok (tt, s')
    → (s' ≡ record s { loans = update_where (λ l. l.id == row.loan.id) (set_active today) s.loans })
      × (find_loan row.loan.id s ≡ some row.loan)
unfolding activate_loan
activate_loan-ok today id row s s' found e =
    let known = find_by_id-loan id s row found in
    let same : row.loan.id ≡ id =
      (==_iff row.loan.id id).0 (find-test (λ (x : Loan). x.id == id) s.loans row.loan known) in
    (
      (update_loan-ok row.loan.id (set_active today) s s' e).0,
      subst (λ n. find_loan n s ≡ some row.loan) (sym same) known,
    )

module _ (by : Option ℕ) (notes : Option String) (today : Date) where
  -- A decision finds a pending loan, and takes it one step on.
  pub decide_loan-ok :
      (id : ℕ) (status : LoanStatus) (s s' : Db)
      → IsDecision status
      → decide_loan id status by notes today s ≡ ok (tt, s')
      → (s' ≡ record s {
        loans = update_where (λ l. l.id == id) (set_status status by notes today) s.loans;
      })
        × ((l : Loan) × (find_loan id s ≡ some l) × Advances l (set_status status by notes today l))
  decide_loan-ok id status s s' decision e =
      let d = decide_loan-IsDecided id status by notes today s s' e in
      (
        d.updated,
        (
          d.row.loan,
          find_by_id-loan id s d.row d.was,
          set_status-Advances by notes today decision d.row.loan d.pending,
        ),
      )

pub decide_loan-Continues :
    (id : ℕ) (was : Loan) (key : ℕ) (status : LoanStatus) (by : Option ℕ) (notes : Option String)
    (today : Date)
    → IsDecision status
    → Preserves (Continues id was) (decide_loan key status by notes today)
decide_loan-Continues id was key status by notes today decision =
    from-Preserves (decide_loan key status by notes today) (λ s _ s' k e.
      let (done, (l, there, step)) = decide_loan-ok by notes today key status s s' decision e in
      let f = set_status status by notes today in
      let advances : (x : Loan) → find_loan key s ≡ some x → Advances x (f x) =
        λ x seen. let same : l ≡ x = cc (there, seen) in subst (λ y. Advances y (f y)) same step in
      subst (Continues id was) (sym done)
        (updated id was key f s (set_status-id by notes today decision) advances k))
