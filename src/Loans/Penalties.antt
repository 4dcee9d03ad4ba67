-- ===== src/Loans/Penalties.antt =====
-- Who is penalized by the monthly run.
use be_lumbung_mesari.Prelude.{
  ℕ, ◌+◌, ◌≤◌, ℤ, ◌≡◌, sym, subst, false, ◌==◌, leb, All, update_where, inl, inr, arith,
  Option-cases, Bool-cases,
}
use be_lumbung_mesari.Exec.{ok, >>-eq-ok}
use be_lumbung_mesari.Db.{Db, Installment}
use be_lumbung_mesari.Loans.Repository.{
  LoanTable, is_unpenalized, find_oldest_unpenalized, update_installment, set_overdue, add_penalty,
  add_penalty_to_installment, find_installment_by_id, count_overdue_installments,
}
use be_lumbung_mesari.Loans.Oldest.{
  IsOldest, find_oldest_unpenalized-IsOldest, find_oldest_unpenalized-none,
}
use be_lumbung_mesari.Loans.Overdue.{penalty_amount, penalize_oldest, mark_and_penalize}

update_installment-ok :
    (id : ℕ) (f : Installment → Installment) (s s' : Db)
    → update_installment id f s ≡ ok (tt, s')
    → s' ≡ record s { installments = update_where (λ i. i.id == id) f s.installments }
unfolding update_installment
update_installment-ok id f s s' h = elim (Option-cases (find_installment_by_id id s)) [
  | inl missing ↦ absurd (cc (rw (update_installment, missing) at h))
  | inr (i, found) ↦ cc (rw (update_installment, found) at h)
]

-- What the run does to a loan whose installment it has marked, of which `count` were overdue before.
pub data Outcome (loan_id : ℕ) (penalty : ℤ) (count : ℕ) (marked : Db) : Db → Type 0 where
  spared : count ≡ 0 → Outcome loan_id penalty count marked marked
  all_penalized :
      1 ≤ count
      → All (λ i. is_unpenalized loan_id i ≡ false) marked.installments
      → Outcome loan_id penalty count marked marked
  penalized :
      (target : Installment)
      → 1 ≤ count
      → IsOldest loan_id marked.installments target
      → Outcome loan_id penalty count marked (record marked {
        installments =
            update_where (λ i. i.id == target.id) (add_penalty penalty) marked.installments;
      })

penalize_oldest-Outcome :
    (loan_id : ℕ) (penalty : ℤ) (count : ℕ) (s s' : Db)
    → penalize_oldest loan_id penalty (count + 1) s ≡ ok (tt, s')
    → Outcome loan_id penalty count s s'
unfolding penalize_oldest add_penalty_to_installment
penalize_oldest-Outcome loan_id penalty count s s' h = elim (Bool-cases (leb 2 (count + 1))) [
  | inr few ↦
      let same : s ≡ s' = cc (rw few at h) in
      subst (Outcome loan_id penalty count s) same (Outcome.spared (ground arith))
  | inl many ↦ elim (Option-cases (find_oldest_unpenalized loan_id s)) [
    | inl missing ↦
        let same : s ≡ s' = cc (rw (many, missing) at h) in
        subst (Outcome loan_id penalty count s) same
          (Outcome.all_penalized (ground arith) (find_oldest_unpenalized-none loan_id s missing))
    | inr (i, found) ↦
        let done = update_installment-ok i.id (add_penalty penalty) s s' (rw (many, found) at h) in
        subst (Outcome loan_id penalty count s) (sym done)
          (Outcome.penalized i (ground arith) (find_oldest_unpenalized-IsOldest loan_id s i found))
  ]
]

-- The run over a loan, if it goes through, marks its one installment as overdue. If none of the
-- loan was overdue before, or if all that are overdue then have a penalty, that is all; else the
-- overdue installment without a penalty that has the least number gets the penalty.
pub mark_and_penalize_lem :
    (loan_id : ℕ) (i : Installment) (row : LoanTable) (s s' : Db)
    → mark_and_penalize loan_id i row s ≡ ok (tt, s')
    → Outcome loan_id
        (penalty_amount row)
        (count_overdue_installments loan_id s)
        (record s { installments = update_where (λ x. x.id == i.id) set_overdue s.installments })
        s'
unfolding mark_and_penalize
mark_and_penalize_lem loan_id i row s s' h =
    let count = count_overdue_installments loan_id s in
    let ((_, s₁), e₁, h₁) =
      >>-eq-ok (update_installment i.id set_overdue)
        (penalize_oldest loan_id (penalty_amount row) (count + 1)) s (tt, s') h in
    subst (λ marked. Outcome loan_id (penalty_amount row) count marked s')
      (update_installment-ok i.id set_overdue s s₁ e₁)
      (penalize_oldest-Outcome loan_id (penalty_amount row) count s₁ s' h₁)
