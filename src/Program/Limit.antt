-- ===== src/Program/Limit.antt =====
-- How many open loans the members have, over runs of the program.
use be_lumbung_mesari.Prelude.{
  ℕ, ◌≤◌, ◌≡◌, refl, ap, Bool, true, false, ◌&&◌, ◌==◌, leb, List, [], ◌∷◌, arith, Option-cases,
  inl, inr,
}
use be_lumbung_mesari.Exec.{Error, Result, ok, err, not_found, database, too_many_loans}
use be_lumbung_mesari.Calendar.{Date}
use be_lumbung_mesari.Db.{Db, Loan, LoanStatus}
use be_lumbung_mesari.Loans.Payments.{find_loan_period}
use be_lumbung_mesari.Loans.Repository.{is_open, check_max_loans, insert_loan}
use be_lumbung_mesari.Loans.Application.{CreateLoanDto, loan_data, as_bad_request, create_loan}
use be_lumbung_mesari.Loans.Limits.{is_open_of, open_loans, others_of_new, insert_loan-limit}
use be_lumbung_mesari.Program.{Env, Event, run}
use be_lumbung_mesari.Program.Steps.{run-Leaves}
use be_lumbung_mesari.Program.OfLoans.Whole.{of_loans-IsKept}
use be_lumbung_mesari.Program.Progress.{Becomes, Advances}
use be_lumbung_mesari.Program.Keys.{
  IsIndexed, count, weight, count-cons, count-update, insert_loan-ok,
}
use be_lumbung_mesari.Program.Counted.{IsCounted, IsRight, IsRight-IsOfLoans}

abbrev pub is_active : LoanStatus → Bool
is_active LoanStatus.active = true
is_active _ = false

abbrev pub is_active_of : ℕ → Loan → Bool
is_active_of user_id l = l.user_id == user_id && is_active l.status

-- A status that is left was open, and was not active.
left : {a b : LoanStatus} → Becomes a b → (is_open a ≡ true) × (is_active a ≡ false)
left Becomes.approved = (refl, refl)
left Becomes.rejected = (refl, refl)
left Becomes.paid_out = (refl, refl)

module _ (user_id : ℕ) where
  open-weight :
      (x y : Loan) → Advances x y → weight (is_open_of user_id y) ≤ weight (is_open_of user_id x)
  open-weight x y (terms, step) =
      let was = (left step).0 in
      let user : y.user_id ≡ x.user_id = ap (λ (l : Loan). l.user_id) terms in
      rw (user, was) (bounded (x.user_id == user_id) (is_open y.status))
    where
      bounded : (b c : Bool) → weight (b && c) ≤ weight (b && true)
      bounded true true = omega arith
      bounded true false = omega arith
      bounded false c = omega arith

  active-weight :
      (x y : Loan)
      → Advances x y
      → weight (is_active_of user_id x) ≤ weight (is_active_of user_id y)
  active-weight x y (terms, step) =
      let was = (left step).1 in rw was (none_of (x.user_id == user_id))
    where
      none_of : (b : Bool) → weight (b && false) ≤ weight (is_active_of user_id y)
      none_of true = omega arith
      none_of false = omega arith

  -- Active loans are open.
  active_loans-open : (ls : List Loan) → count (is_active_of user_id) ls ≤ open_loans user_id ls
  active_loans-open [] = omega arith
  active_loans-open (l ∷ ls) =
      let rest = active_loans-open ls in
      let active = count-cons (is_active_of user_id) l ls in
      let opened = count-cons (is_open_of user_id) l ls in
      let more = implied (l.user_id == user_id) l.status in
      omega (arith, rest, active, opened, more)
    where
      implied : (b : Bool) (s : LoanStatus) → weight (b && is_active s) ≤ weight (b && is_open s)
      implied false s = omega arith
      implied true LoanStatus.active = omega arith
      implied true LoanStatus.pending = omega arith
      implied true LoanStatus.approved = omega arith
      implied true LoanStatus.rejected = omega arith
      implied true LoanStatus.completed = omega arith

abbrev pub IsLimited : List Loan → Type 0
IsLimited ls = (user_id : ℕ) → open_loans user_id ls ≤ 3

IsLimited-IsCounted : IsCounted IsLimited
IsLimited-IsCounted = record {
  inserts = λ row l s s' e v h user_id. insert_loan-limit row l s s' user_id v.0 e (h user_id);
  advances = λ id f ls x v found step h user_id.
      let c = count-update id f (is_open_of user_id) ls x v found in
      let w = open-weight user_id x (f x) step in
      let limit = h user_id in omega (arith, c, w, limit);
}

abbrev pub HasThreeActive : ℕ → List Loan → Type 0
HasThreeActive user_id ls = 3 ≤ count (is_active_of user_id) ls

HasThreeActive-IsCounted : (user_id : ℕ) → IsCounted (HasThreeActive user_id)
HasThreeActive-IsCounted user_id = record {
  inserts = λ row l s s' e v h.
      let new = record row { id = s.next_id } in
      let c = count-cons (is_active_of user_id) new s.loans in
      let more : 3 ≤ count (is_active_of user_id) (new ∷ s.loans) = omega (arith, c, h) in
      rw (insert_loan-ok row l s s' e) more;
  advances = λ id f ls x v found step h.
      let c = count-update id f (is_active_of user_id) ls x v found in
      let w = active-weight user_id x (f x) step in omega (arith, c, w, h);
}

-- A fourth open loan is refused.
insert_loan_refused :
    (row : Loan) (s : Db)
    → IsIndexed s
    → is_open row.status ≡ true
    → HasThreeActive row.user_id s.loans
    → insert_loan row s ≡ err (database too_many_loans)
unfolding insert_loan check_max_loans
insert_loan_refused row s v opened three =
    let others = others_of_new row.user_id s.next_id s.loans v.0 in
    let few = active_loans-open row.user_id s.loans in
    let many : leb 3 (open_loans row.user_id s.loans) ≡ true = ground (arith, three, few) in
    rw (insert_loan, check_max_loans, others, opened, many) refl

answered :
    (row : Loan) (s : Db) (e : Error)
    → insert_loan row s ≡ err e
    → (elim (insert_loan row s) as (λ _. Result Loan × Db) [
      | ok (loan, t) ↦ (ok loan, t)
      | err x ↦ (err (as_bad_request x), s)
    ])
      ≡ (err (as_bad_request e), s)
answered row s e h = rw h refl

create_loan_refused :
    (env : Env) (today : Date) (user_id : ℕ) (dto : CreateLoanDto) (s : Db)
    → IsIndexed s
    → HasThreeActive user_id s.loans
    → (e : Error) × (create_loan env.store env.admin_fee_rate today user_id dto s ≡ (err e, s))
unfolding create_loan
create_loan_refused env today user_id dto s v three =
    elim (Option-cases (find_loan_period dto.loan_period_id s)) [
      | inl e ↦ (not_found, rw (create_loan, e) refl)
      | inr (p, e) ↦
          let row = loan_data env.store env.admin_fee_rate today user_id dto p in
          let refused = insert_loan_refused row s v refl three in
          (
            as_bad_request (database too_many_loans),
            rw (create_loan, e) (answered row s (database too_many_loans) refused),
          )
    ]

module _ (env : Env) (es : List (Event env)) (s : Db) where
  -- Whatever requests, visits and jobs come, whole and in any order: if the keys of the loans were
  -- drawn, each for one loan, and every member has at most three open loans, then every member has
  -- at most three open loans after the run.
  pub run-IsLimited : IsIndexed s → IsLimited s.loans → IsLimited (run env es s).loans
  run-IsLimited v h =
      let kept = of_loans-IsKept env _ (IsRight-IsOfLoans IsLimited IsLimited-IsCounted) in
      (run-Leaves env (IsRight IsLimited IsLimited-IsCounted) kept es s (v, h)).1

  -- Whatever requests, visits and jobs come, whole and in any order: if the keys of the loans were
  -- drawn, each for one loan, and a member has three active loans, then after the run every
  -- application of the member is answered with an error and writes nothing, whether the loans have
  -- been repaid or not.
  pub run-refused :
      (user_id : ℕ)
      → IsIndexed s
      → HasThreeActive user_id s.loans
      → (today : Date) (dto : CreateLoanDto)
      → (e : Error) × (create_loan env.store env.admin_fee_rate today user_id dto (run env es s)
          ≡ (err e, run env es s))
  run-refused user_id v h today dto =
      let counted = HasThreeActive-IsCounted user_id in
      let kept = of_loans-IsKept env _ (IsRight-IsOfLoans (HasThreeActive user_id) counted) in
      let after = run-Leaves env (IsRight (HasThreeActive user_id) counted) kept es s (v, h) in
      create_loan_refused env today user_id dto (run env es s) after.0 after.1
