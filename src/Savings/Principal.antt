-- ===== src/Savings/Principal.antt =====
-- Settling the principal savings of a member: what it does, and that it is done once.
use be_lumbung_mesari.Prelude.{
  ℕ, ℤ, ◌+ℤ◌, +ℤ-zero, ◌≡◌, refl, ap, ◌∙◌, false, some, ◌==◌, ==_refl, Option, find,
  find-update_other, update_where, arith, Option-cases, inl, inr,
}
use be_lumbung_mesari.Exec.{ok}
use be_lumbung_mesari.Calendar.{Clock}
use be_lumbung_mesari.Cashbook.{Balances, IncomeDestination}
use be_lumbung_mesari.Cashbook.Ledger.{IsConsistent}
use be_lumbung_mesari.Db.{Db, PrincipalSavings}
use be_lumbung_mesari.Incomes.{book_income, income_of, create_principal_savings_income}
use be_lumbung_mesari.Incomes.Bookings.{
  IsIncomeInsert, IsBooked, create_categorised-IsIncomeInsert, book_income-IsBooked, collected,
}
use be_lumbung_mesari.Savings.Records.{
  find_principal_savings, set_principal_paid, update_principal_savings,
}
use be_lumbung_mesari.Savings.Service.{is_settled, settle_principal_savings}

pub principal-IsIncomeInsert :
    (id : ℕ) (amount : ℤ) → IsIncomeInsert (create_principal_savings_income id amount)
unfolding create_principal_savings_income
principal-IsIncomeInsert id amount =
    create_categorised-IsIncomeInsert "principal_savings"
      (λ c. record (income_of "Simpanan Pokok" amount c) { principal_saving_id = some id })

-- The savings of a user, whoever the user is.
abbrev pub savings_of : ℕ → Db → Option PrincipalSavings
savings_of user_id s = find (λ p. p.user_id == user_id) s.principal_savings

module _ (clock : Clock) (user_id admin_id : ℕ) (p : PrincipalSavings) (s s' : Db)
    (found : find_principal_savings user_id s ≡ some p) where
  abbrev principal_paid : Db
  principal_paid = record s {
    principal_savings =
        update_where (λ x. x.id == p.id) (set_principal_paid clock.instant admin_id)
          s.principal_savings;
  }

  principal_settled :
      settle_principal_savings clock user_id admin_id s ≡ ok (tt, s')
      → (savings_of user_id s ≡ some p)
        × (is_settled p.status ≡ false)
        × (book_income clock.instant p.amount IncomeDestination.capital
              (create_principal_savings_income p.id p.amount)
              principal_paid
            ≡ ok (tt, s'))
  unfolding settle_principal_savings update_principal_savings
  principal_settled h = ground (arith, found)

-- The rows that a settlement of principal savings has written.
pub record IsPrincipalMarked (clock : Clock) (user_id admin_id : ℕ) (s s' : Db) : Type 0 where
  pub savings : PrincipalSavings
  pub found : savings_of user_id s ≡ some savings
  pub unpaid : is_settled savings.status ≡ false
  pub booked :
      IsBooked clock.instant savings.amount IncomeDestination.capital
        (record s {
          principal_savings =
              update_where
                (λ x. x.id == savings.id)
                (set_principal_paid clock.instant admin_id)
                s.principal_savings;
        })
        s'
  pub marked :
      s'.principal_savings
      ≡ update_where
          (λ p. p.id == savings.id)
          (set_principal_paid clock.instant admin_id)
          s.principal_savings
  pub users : s'.users ≡ s.users

pub settle_principal-IsPrincipalMarked :
    (clock : Clock) (user_id admin_id : ℕ) (s s' : Db)
    → settle_principal_savings clock user_id admin_id s ≡ ok (tt, s')
    → IsPrincipalMarked clock user_id admin_id s s'
unfolding settle_principal_savings
settle_principal-IsPrincipalMarked clock user_id admin_id s s' h =
    elim (Option-cases (find_principal_savings user_id s)) [
      | inl missing ↦ absurd (cc (rw missing at h))
      | inr (p, found) ↦
          let (own, unpaid, booked) = principal_settled clock user_id admin_id p s s' found h in
          let b =
            book_income-IsBooked clock.instant p.amount IncomeDestination.capital
              (create_principal_savings_income p.id p.amount)
              (principal-IsIncomeInsert p.id p.amount)
              (principal_paid clock user_id admin_id p s s' found) s' booked in
          record {
            savings = p;
            found = own;
            unpaid = unpaid;
            booked = b;
            marked = ap (λ (x : Db). x.principal_savings) b.rest;
            users = ap (λ (x : Db). x.users) b.rest;
          }
    ]

-- The savings of the user are the same row, paid.
pub IsPrincipalMarked-paid :
    (clock : Clock) (user_id admin_id : ℕ) (s s' : Db)
    (f : IsPrincipalMarked clock user_id admin_id s s')
    → savings_of user_id s' ≡ some (set_principal_paid clock.instant admin_id f.savings)
IsPrincipalMarked-paid clock user_id admin_id s s' f = rw f.marked (
    find-update_other (λ p. p.user_id == user_id) (λ p. p.id == f.savings.id)
      (set_principal_paid clock.instant admin_id) (λ x. refl) s.principal_savings f.savings f.found
      (==_refl _))

-- What a settlement of principal savings has done, over a ledger behind the balances.
pub record IsPrincipalSettled (o : Balances) (clock : Clock) (user_id admin_id : ℕ) (s s' : Db)
    : Type 0 where
  pub rows : IsPrincipalMarked clock user_id admin_id s s'
  pub capital : s'.book.balances.capital ≡ s.book.balances.capital +ℤ rows.savings.amount
  pub shu : s'.book.balances.shu ≡ s.book.balances.shu
  pub consistent : IsConsistent o s'.book

-- A settlement of principal savings that goes through over a ledger behind the balances found them
-- not paid; it marks them as paid, brings their amount to the capital, leaves the surplus and the
-- users alone and keeps the ledger behind the balances.
pub settle_principal-IsPrincipalSettled :
    (o : Balances) (clock : Clock) (user_id admin_id : ℕ) (s s' : Db)
    → IsConsistent o s.book
    → settle_principal_savings clock user_id admin_id s ≡ ok (tt, s')
    → IsPrincipalSettled o clock user_id admin_id s s'
settle_principal-IsPrincipalSettled o clock user_id admin_id s s' c h =
    let r = settle_principal-IsPrincipalMarked clock user_id admin_id s s' h in
    let f = collected o clock.instant r.savings.amount IncomeDestination.capital _ s' c r.booked in
    record { rows = r; capital = f.capital; shu = f.shu ∙ +ℤ-zero _; consistent = f.consistent }
