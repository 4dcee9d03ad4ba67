-- ===== src/Loans/Settlement.antt =====
-- What settling an installment does, and that it is done once.
use be_lumbung_mesari.Prelude.{
  ℕ, ℤ, pos, ◌+ℤ◌, int_laws, ltb_ℤ, ◌≡◌, subst, false, some, ◌==◌, update_where, find-update_where,
  if◌then◌else◌, arith, Option-cases, Bool-cases, inl, inr,
}
use be_lumbung_mesari.Exec.{ok, err, bad_request, ok-injective, when, >>-eq-ok}
use be_lumbung_mesari.Calendar.{Clock}
use be_lumbung_mesari.Cashbook.{Balances, IncomeDestination}
use be_lumbung_mesari.Cashbook.Ledger.{IsConsistent}
use be_lumbung_mesari.Db.{Db, Installment}
use be_lumbung_mesari.Incomes.{
  book_income, create_installment_principal_income, create_installment_interest_income,
  create_installment_penalty_income,
}
use be_lumbung_mesari.Loans.Repository.{
  find_installment_by_id, update_installment, set_paid, is_paid,
}
use be_lumbung_mesari.Loans.Service.{book_installment, settle_in_transaction}
use be_lumbung_mesari.Incomes.Bookings.{
  IsCollected, IsCollected-trans, collected, nothing-IsCollected, book_income-IsBooked,
  principal-IsIncomeInsert, interest-IsIncomeInsert, penalty-IsIncomeInsert,
}

-- What the penalty adds.
abbrev pub penalty_part : ℤ → ℤ
penalty_part x = if ltb_ℤ (pos 0) x then x else pos 0

module _ (o : Balances) where
  penalty-IsCollected :
      (now : ℕ) (i : Installment) (s s' : Db)
      → IsConsistent o s.book
      → when
          (ltb_ℤ (pos 0) i.penalty_amount)
          (book_income now i.penalty_amount IncomeDestination.shu
            (create_installment_penalty_income i.id "Denda angsuran" i.penalty_amount))
          s
        ≡ ok (tt, s')
      → IsCollected o (penalty_part i.penalty_amount) (pos 0) s s'
  penalty-IsCollected now i s s' c h = elim (Bool-cases (ltb_ℤ (pos 0) i.penalty_amount)) [
    | inl t ↦ rw t (
        collected o now i.penalty_amount IncomeDestination.shu s s' c (
          book_income-IsBooked now i.penalty_amount IncomeDestination.shu _
            (penalty-IsIncomeInsert i.id i.penalty_amount "Denda angsuran") s s' (rw t at h)))
    | inr f ↦ rw f (
        subst (λ (p : Unit × Db). IsCollected o (pos 0) (pos 0) s p.1) (ok-injective (rw f at h))
          (nothing-IsCollected o s c))
  ]

  shares_added : (u p : ℤ) → pos 0 +ℤ (u +ℤ p) ≡ u +ℤ p
  shares_added u p = omega int_laws

  no_shares_added : (c : ℤ) → c +ℤ (pos 0 +ℤ pos 0) ≡ c
  no_shares_added c = omega int_laws

  book_installment-IsCollected :
      (now : ℕ) (i : Installment) (s s' : Db)
      → IsConsistent o s.book
      → book_installment now i s ≡ ok (tt, s')
      → IsCollected o (i.interest_amount +ℤ penalty_part i.penalty_amount) i.principal_amount s s'
  unfolding book_installment
  book_installment-IsCollected now i s s' c h =
      let ((_, s₁), e₁, h₁) =
        >>-eq-ok
          (book_income now i.principal_amount IncomeDestination.capital (
            create_installment_principal_income i.id "Pembayaran pokok angsuran"
              i.principal_amount))
          _ s (tt, s') h in
      let ((_, s₂), e₂, h₂) =
        >>-eq-ok
          (book_income now i.interest_amount IncomeDestination.shu
            (create_installment_interest_income i.id "Bunga angsuran" i.interest_amount))
          _ s₁ (tt, s') h₁ in
      let c₁ = collected o now i.principal_amount IncomeDestination.capital s s₁ c (
        book_income-IsBooked now i.principal_amount IncomeDestination.capital _
          (principal-IsIncomeInsert i.id i.principal_amount "Pembayaran pokok angsuran") s s₁ e₁) in
      let c₂ = collected o now i.interest_amount IncomeDestination.shu s₁ s₂ c₁.consistent (
        book_income-IsBooked now i.interest_amount IncomeDestination.shu _
          (interest-IsIncomeInsert i.id i.interest_amount "Bunga angsuran") s₁ s₂ e₂) in
      let c₃ = penalty-IsCollected now i s₂ s' c₂.consistent h₂ in
      rw (← shares_added i.interest_amount (penalty_part i.penalty_amount)) (
        rw (← no_shares_added i.principal_amount)
          (IsCollected-trans o _ _ _ _ s s₁ s' c₁ (IsCollected-trans o _ _ _ _ s₁ s₂ s' c₂ c₃)))

-- What a settlement that went through has done.
pub record IsSettled (o : Balances) (clock : Clock) (id admin_id : ℕ) (s s' : Db) : Type 0 where
  pub installment : Installment
  pub found : find_installment_by_id id s ≡ some installment
  pub unpaid : is_paid installment.status ≡ false
  pub marked :
      s'.installments ≡ update_where (λ i. i.id == id) (set_paid admin_id clock.date) s.installments
  pub shu :
      s'.book.balances.shu
      ≡ s.book.balances.shu
        +ℤ (installment.interest_amount +ℤ penalty_part installment.penalty_amount)
  pub capital : s'.book.balances.capital ≡ s.book.balances.capital +ℤ installment.principal_amount
  pub consistent : IsConsistent o s'.book
  pub loans : s'.loans ≡ s.loans

module _ (clock : Clock) (id admin_id : ℕ) where
  settle_found :
      (i : Installment) (s s' : Db)
      → find_installment_by_id id s ≡ some i
      → settle_in_transaction clock id admin_id s ≡ ok (tt, s')
      → (is_paid i.status ≡ false)
        × (book_installment clock.instant i (record s {
          installments =
              update_where (λ x. x.id == id) (set_paid admin_id clock.date) s.installments;
        })
            ≡ ok (tt, s'))
  unfolding settle_in_transaction update_installment
  settle_found i s s' found h = ground (arith, found)

  -- A settlement that goes through over a ledger behind the balances found the installment not paid;
  -- it marks it as paid, brings its principal to the capital
  -- and its interest and penalty to the surplus, and keeps the ledger behind the balances.
  pub settle_in_transaction-IsSettled :
      (o : Balances) (s s' : Db)
      → IsConsistent o s.book
      → settle_in_transaction clock id admin_id s ≡ ok (tt, s')
      → IsSettled o clock id admin_id s s'
  unfolding settle_in_transaction
  settle_in_transaction-IsSettled o s s' c h = elim (Option-cases (find_installment_by_id id s)) [
    | inl missing ↦ absurd (cc (rw missing at h))
    | inr (i, found) ↦
        let (unpaid, booked) = settle_found i s s' found h in
        let f = book_installment-IsCollected o clock.instant i _ s' c booked in
        record {
          installment = i;
          found = found;
          unpaid = unpaid;
          marked = f.installments;
          shu = f.shu;
          capital = f.capital;
          consistent = f.consistent;
          loans = f.loans;
        }
  ]

-- After a settlement of an installment over a ledger behind the balances, a second settlement of it
-- is refused, whoever asks.
pub settle_twice_refused :
    (o : Balances) (clock : Clock) (id admin_id : ℕ) (s s' : Db)
    → IsConsistent o s.book
    → settle_in_transaction clock id admin_id s ≡ ok (tt, s')
    → (later : Clock) (other_admin : ℕ)
    → settle_in_transaction later id other_admin s' ≡ err bad_request
unfolding settle_in_transaction
settle_twice_refused o clock id admin_id s s' c h later other_admin =
    let f = settle_in_transaction-IsSettled clock id admin_id o s s' c h in
    rw f.marked (
      rw (
        find-update_where (λ i. i.id == id) (set_paid admin_id clock.date) (λ i t. t) s.installments
          f.installment f.found))
