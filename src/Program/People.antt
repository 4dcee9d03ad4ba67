-- ===== src/Program/People.antt =====
-- The transactions on users keep the state well.
use be_lumbung_mesari.Prelude.{
  ℕ, Bool, ℤ, ◌≡◌, refl, sym, ap, subst, none, All, Option-cases, inl, inr, find, ◌==◌,
}
use be_lumbung_mesari.Exec.{Tx}
use be_lumbung_mesari.Exec.Keeps.{Preserves, from-Preserves, ok-Preserves, transaction_rules}
use be_lumbung_mesari.Calendar.{Clock}
use be_lumbung_mesari.Cashbook.{Balances, IncomeDestination}
use be_lumbung_mesari.Cashbook.Ledger.{IsConsistent}
use be_lumbung_mesari.Db.{Db, Income, PrincipalSavings, UserStatus}
use be_lumbung_mesari.Incomes.{book_income}
use be_lumbung_mesari.Incomes.Bookings.{IsIncomeInsert, book_income-IsBooked}
use be_lumbung_mesari.Savings.Records.{update_principal_savings}
use be_lumbung_mesari.Savings.Service.{settle_principal_savings, create_principal_savings}
use be_lumbung_mesari.Savings.Principal.{principal-IsIncomeInsert}
use be_lumbung_mesari.Users.Repository.{UpdateUserEntity, update_status}
use be_lumbung_mesari.Users.Service.{
  CreatedUser, create_user, update, approve_in_transaction, reject_in_transaction,
}
use be_lumbung_mesari.Users.Approval.{update_status-ok, approve_in_transaction-IsApproved}
use be_lumbung_mesari.Users.Updates.{update-IsUpdated}
use be_lumbung_mesari.Auth.Service.{verify_in_transaction}
use be_lumbung_mesari.Auth.Verification.{
  create_principal_savings-ok, verify_in_transaction-IsVerified,
}
use be_lumbung_mesari.Auth.Credentials.{create_user-ok}
use be_lumbung_mesari.Auth.Members.{Step, Reach, IsSound, Reach-IsSound}
use be_lumbung_mesari.Program.Well.{IsPayable, IsSpent, IsWell}

-- The same loans and expenses.
abbrev IsRows : Db → Db → Type 0
IsRows s t = (t.loans ≡ s.loans) × (t.expenses ≡ s.expenses)

sound : (exempt : ℕ → Bool) {s s' : Db} → Step s s' → IsSound exempt s → IsSound exempt s'
sound exempt st v = Reach-IsSound exempt (Reach.next Reach.here st) v

module _ (s₀ : Db) where
  book_income-IsRows :
      (now : ℕ) (amount : ℤ) (d : IncomeDestination) (create : Tx Db Income)
      → IsIncomeInsert create
      → Preserves (IsRows s₀) (book_income now amount d create)
  book_income-IsRows now amount d create inserts =
      from-Preserves (book_income now amount d create) (λ s u s' h e.
        let b = book_income-IsBooked now amount d create inserts s s' e in
        subst (IsRows s₀) (sym b.rest) h)

  update-IsRows : (id : ℕ) (changes : UpdateUserEntity) → Preserves (IsRows s₀) (update id changes)
  update-IsRows id changes =
      from-Preserves (update id changes)
        (λ s u s' h e. subst (IsRows s₀) (sym (update-IsUpdated id changes s u s' e).rest) h)

  update_status-IsRows :
      (id : ℕ) (status : UserStatus) → Preserves (IsRows s₀) (update_status id status)
  update_status-IsRows id status =
      from-Preserves (update_status id status)
        (λ s u s' h e. subst (IsRows s₀) (sym (update_status-ok id status s s' e).1) h)

  update_principal-IsRows :
      (id : ℕ) (f : PrincipalSavings → PrincipalSavings)
      → Preserves (IsRows s₀) (update_principal_savings id f)
  unfolding update_principal_savings
  update_principal-IsRows id f = record {
    holds = λ s h.
        elim (Option-cases (find (λ (p : PrincipalSavings). p.id == id) s.principal_savings)) [
          | inl e ↦ rw (e, update_principal_savings) tt
          | inr (p, e) ↦ rw (e, update_principal_savings) h
        ];
  }

  create_principal-IsRows :
      (configured : ℤ) (id : ℕ) → Preserves (IsRows s₀) (create_principal_savings configured id)
  create_principal-IsRows configured id =
      from-Preserves (create_principal_savings configured id) (λ s u s' h e.
        subst (IsRows s₀) (sym (create_principal_savings-ok configured id s s' e).1.3) h)

  settle_principal-IsRows :
      (clock : Clock) (id admin_id : ℕ)
      → Preserves (IsRows s₀) (settle_principal_savings clock id admin_id)
  unfolding settle_principal_savings
  settle_principal-IsRows clock id admin_id =
      search
        (transaction_rules, update_principal-IsRows, book_income-IsRows, principal-IsIncomeInsert)
        depth 8

  approve-IsRows :
      (clock : Clock) (id admin_id : ℕ)
      → Preserves (IsRows s₀) (approve_in_transaction clock id admin_id)
  unfolding approve_in_transaction
  approve-IsRows clock id admin_id =
      search (transaction_rules, update_status-IsRows, settle_principal-IsRows)

  verify-IsRows :
      (configured : ℤ) (id : ℕ) → Preserves (IsRows s₀) (verify_in_transaction configured id)
  unfolding verify_in_transaction
  verify-IsRows configured id = search (transaction_rules, update-IsRows, create_principal-IsRows)

module _ (o : Balances) (exempt : ℕ → Bool) where
  -- A step that leaves the book, the loans and the expenses alone.
  carried :
      (s s' : Db)
      → s'.book ≡ s.book
      → IsRows s s'
      → IsSound exempt s'
      → IsWell o exempt s
      → IsWell o exempt s'
  carried s s' book rows v h = (
    subst (IsConsistent o) (sym book) h.0,
    subst (All IsPayable) (sym rows.0) h.1,
    subst (All IsSpent) (sym rows.1) h.2,
    v,
  )

  pub create_user-Preserves :
      (c : CreatedUser)
      → c.status ≡ UserStatus.pending
      → Preserves (IsWell o exempt) (create_user c)
  create_user-Preserves c pending = from-Preserves (create_user c) (λ s u s' h e.
      let rest = (create_user-ok c s u s' e).1 in
      carried s s' (ap (λ (x : Db). x.book) rest)
        (ap (λ (x : Db). x.loans) rest, ap (λ (x : Db). x.expenses) rest)
        (sound exempt (Step.registers c u pending e) h.3) h)

  pub update-Preserves :
      (id : ℕ) (changes : UpdateUserEntity)
      → changes.status ≡ none
      → Preserves (IsWell o exempt) (update id changes)
  update-Preserves id changes unset = from-Preserves (update id changes) (λ s u s' h e.
      let rest = (update-IsUpdated id changes s u s' e).rest in
      carried s s' (ap (λ (x : Db). x.book) rest)
        (ap (λ (x : Db). x.loans) rest, ap (λ (x : Db). x.expenses) rest)
        (sound exempt (Step.updates id changes u unset e) h.3) h)

  pub verify-Preserves :
      (configured : ℤ) (id : ℕ) → Preserves (IsWell o exempt) (verify_in_transaction configured id)
  verify-Preserves configured id =
      from-Preserves (verify_in_transaction configured id) (λ s u s' h e.
        carried s s' (verify_in_transaction-IsVerified configured id s u s' e).book
          (ok-Preserves (verify-IsRows s configured id) s u s' (refl, refl) e)
          (sound exempt (Step.verifies configured id u e) h.3) h)

  pub approve-Preserves :
      (clock : Clock) (id admin_id : ℕ)
      → Preserves (IsWell o exempt) (approve_in_transaction clock id admin_id)
  approve-Preserves clock id admin_id =
      from-Preserves (approve_in_transaction clock id admin_id) (λ s u s' h e.
        let rows = ok-Preserves (approve-IsRows s clock id admin_id) s u s' (refl, refl) e in
        (
          (approve_in_transaction-IsApproved o clock id admin_id s s' h.0 e).consistent,
          subst (All IsPayable) (sym rows.0) h.1,
          subst (All IsSpent) (sym rows.1) h.2,
          sound exempt (Step.approves clock id admin_id e) h.3,
        ))

  pub reject-Preserves : (id : ℕ) → Preserves (IsWell o exempt) (reject_in_transaction id)
  unfolding reject_in_transaction
  reject-Preserves id = from-Preserves (reject_in_transaction id) (λ s u s' h e.
      let rest = (update_status-ok id UserStatus.rejected s s' e).1 in
      carried s s' (ap (λ (x : Db). x.book) rest)
        (ap (λ (x : Db). x.loans) rest, ap (λ (x : Db). x.expenses) rest)
        (sound exempt (Step.rejects id e) h.3) h)
