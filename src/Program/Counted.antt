-- ===== src/Program/Counted.antt =====
-- A property of the loans under their keys that the applications and the steps of a loan keep is
-- kept by every run.
use be_lumbung_mesari.Prelude.{ℕ, ◌≡◌, refl, sym, subst, some, List, ◌==◌, find, update_where}
use be_lumbung_mesari.Exec.{ok}
use be_lumbung_mesari.Exec.Keeps.{from-Preserves}
use be_lumbung_mesari.Db.{Db, Loan}
use be_lumbung_mesari.Loans.Repository.{insert_loan, set_status, set_active}
use be_lumbung_mesari.Loans.Application.{decide_loan}
use be_lumbung_mesari.Program.OfLoans.{IsOfLoans}
use be_lumbung_mesari.Program.Progress.{
  Advances, set_status-id, set_active-Advances, activate_loan-ok, decide_loan-ok,
}
use be_lumbung_mesari.Program.Keys.{
  IsDistinct, IsIndexed, IsIndexed-update, IsIndexed-later, IsIndexed-insert,
}

pub record IsCounted (Q : List Loan → Type 0) : Type 0 where
  pub inserts :
      (row l : Loan) (s s' : Db)
      → insert_loan row s ≡ ok (l, s')
      → IsIndexed s
      → Q s.loans
      → Q s'.loans
  pub advances :
      (id : ℕ) (f : Loan → Loan) (ls : List Loan) (x : Loan)
      → IsDistinct ls
      → find (λ (l : Loan). l.id == id) ls ≡ some x
      → Advances x (f x)
      → Q ls
      → Q (update_where (λ l. l.id == id) f ls)

module _ (Q : List Loan → Type 0) (counted : IsCounted Q) where
  abbrev pub IsRight : Db → Type 0
  IsRight s = IsIndexed s × Q s.loans

  advanced :
      (id : ℕ) (f : Loan → Loan) (x : Loan) (s s' : Db)
      → ((l : Loan) → (f l).id ≡ l.id)
      → s' ≡ record s { loans = update_where (λ l. l.id == id) f s.loans }
      → find (λ (l : Loan). l.id == id) s.loans ≡ some x
      → Advances x (f x)
      → IsRight s
      → IsRight s'
  advanced id f x s s' keyed done found step h =
      subst IsRight (sym done)
        (IsIndexed-update id f keyed s h.0, counted.advances id f s.loans x h.0.1 found step h.1)

  pub IsRight-IsOfLoans : IsOfLoans IsRight
  IsRight-IsOfLoans = record {
    unchanged = λ s s' same later h. (IsIndexed-later s s' same later h.0, subst Q (sym same) h.1);
    inserted = λ row.
        from-Preserves (insert_loan row)
          (λ s l s' h e. (IsIndexed-insert row l s s' e h.0, counted.inserts row l s s' e h.0 h.1));
    decided = λ id status by notes today decision.
        from-Preserves (decide_loan id status by notes today) (λ s _ s' h e.
          let (done, (l, found, step)) = decide_loan-ok by notes today id status s s' decision e in
          advanced id (set_status status by notes today) l s s'
            (set_status-id by notes today decision) done found step h);
    activated = λ today id row s s' found approved h e.
        let (done, there) = activate_loan-ok today id row s s' found e in
        advanced row.loan.id (set_active today) row.loan s s' (λ l. refl) done there
          (set_active-Advances today row.loan approved) h;
  }
