-- ===== src/Program/OfLoans/People.antt =====
-- The transactions on users keep a property of the loans.
use be_lumbung_mesari.Prelude.{ℕ, ℤ, refl, sym, subst, ◌==◌, find, arith, Option-cases, inl, inr}
use be_lumbung_mesari.Exec.Keeps.{Preserves, from-Preserves, transaction_rules}
use be_lumbung_mesari.Calendar.{Clock}
use be_lumbung_mesari.Db.{Db, PrincipalSavings, UserStatus}
use be_lumbung_mesari.Savings.Records.{update_principal_savings}
use be_lumbung_mesari.Savings.Service.{create_principal_savings, settle_principal_savings}
use be_lumbung_mesari.Savings.Principal.{principal-IsIncomeInsert}
use be_lumbung_mesari.Users.Repository.{UpdateUserEntity, update_status}
use be_lumbung_mesari.Users.Service.{
  CreatedUser, create_user, update, approve_in_transaction, reject_in_transaction,
}
use be_lumbung_mesari.Users.Approval.{update_status-ok}
use be_lumbung_mesari.Users.Updates.{update-IsUpdated}
use be_lumbung_mesari.Auth.Service.{verify_in_transaction}
use be_lumbung_mesari.Auth.Credentials.{create_user-ok}
use be_lumbung_mesari.Auth.Verification.{create_principal_savings-ok}
use be_lumbung_mesari.Program.OfLoans.{IsOfLoans}
use be_lumbung_mesari.Program.OfLoans.Money.{book_income-Preserves}

module _ (P : Db → Type 0) (of_loans : IsOfLoans P) where
  pub create_user-Preserves : (c : CreatedUser) → Preserves P (create_user c)
  create_user-Preserves c = from-Preserves (create_user c) (λ s u s' h e.
      subst P (sym (create_user-ok c s u s' e).1) (of_loans.unchanged s _ refl (omega arith) h))

  pub update-Preserves : (id : ℕ) (changes : UpdateUserEntity) → Preserves P (update id changes)
  update-Preserves id changes = from-Preserves (update id changes) (λ s u s' h e.
      subst P (sym (update-IsUpdated id changes s u s' e).rest)
        (of_loans.unchanged s _ refl (omega arith) h))

  update_status-Preserves : (id : ℕ) (status : UserStatus) → Preserves P (update_status id status)
  update_status-Preserves id status = from-Preserves (update_status id status) (λ s u s' h e.
      subst P (sym (update_status-ok id status s s' e).1)
        (of_loans.unchanged s _ refl (omega arith) h))

  update_principal-Preserves :
      (id : ℕ) (f : PrincipalSavings → PrincipalSavings)
      → Preserves P (update_principal_savings id f)
  unfolding update_principal_savings
  update_principal-Preserves id f = record {
    holds = λ s h.
        elim (Option-cases (find (λ (p : PrincipalSavings). p.id == id) s.principal_savings)) [
          | inl e ↦ rw (e, update_principal_savings) tt
          | inr (p, e) ↦
              rw (e, update_principal_savings) (of_loans.unchanged s _ refl (omega arith) h)
        ];
  }

  create_principal-Preserves :
      (configured : ℤ) (id : ℕ) → Preserves P (create_principal_savings configured id)
  create_principal-Preserves configured id =
      from-Preserves (create_principal_savings configured id) (λ s u s' h e.
        subst P (sym (create_principal_savings-ok configured id s s' e).1.3)
          (of_loans.unchanged s _ refl (omega arith) h))

  settle_principal-Preserves :
      (clock : Clock) (id admin_id : ℕ) → Preserves P (settle_principal_savings clock id admin_id)
  unfolding settle_principal_savings
  settle_principal-Preserves clock id admin_id =
      let books = book_income-Preserves P of_loans in
      search (transaction_rules, update_principal-Preserves, books, principal-IsIncomeInsert) depth
        8

  pub approve-Preserves :
      (clock : Clock) (id admin_id : ℕ) → Preserves P (approve_in_transaction clock id admin_id)
  unfolding approve_in_transaction
  approve-Preserves clock id admin_id =
      search (transaction_rules, update_status-Preserves, settle_principal-Preserves)

  pub reject-Preserves : (id : ℕ) → Preserves P (reject_in_transaction id)
  unfolding reject_in_transaction
  reject-Preserves id = update_status-Preserves id UserStatus.rejected

  pub verify-Preserves :
      (configured : ℤ) (id : ℕ) → Preserves P (verify_in_transaction configured id)
  unfolding verify_in_transaction
  verify-Preserves configured id =
      search (transaction_rules, update-Preserves, create_principal-Preserves)
