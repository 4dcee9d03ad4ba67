-- ===== src/Savings/Settlement.antt =====
-- Settling the mandatory savings of a member: what it does, and that it is done once.
use be_lumbung_mesari.Prelude.{
  ℕ, ℤ, ◌+ℤ◌, +ℤ-zero, ◌≡◌, ap, ◌∙◌, false, some, ◌==◌, find-test, find-update_where, update_where,
  ==_iff, arith, Option-cases, inl, inr, subst, sym,
}
use be_lumbung_mesari.Exec.{ok, err, bad_request}
use be_lumbung_mesari.Calendar.{Clock}
use be_lumbung_mesari.Cashbook.{Balances, IncomeDestination}
use be_lumbung_mesari.Cashbook.Ledger.{IsConsistent}
use be_lumbung_mesari.Db.{Db, MandatorySavings}
use be_lumbung_mesari.Incomes.{book_income, income_of, create_mandatory_savings_income}
use be_lumbung_mesari.Incomes.Bookings.{
  IsIncomeInsert, create_categorised-IsIncomeInsert, book_income-IsBooked, collected,
}
use be_lumbung_mesari.Savings.Records.{
  find_mandatory_savings, set_mandatory_paid, update_mandatory_savings,
}
use be_lumbung_mesari.Savings.Service.{is_settled, settle_mandatory_in_transaction}

module _ (id : ℕ) (amount : ℤ) where
  pub mandatory-IsIncomeInsert : IsIncomeInsert (create_mandatory_savings_income id amount)
  unfolding create_mandatory_savings_income
  mandatory-IsIncomeInsert =
      create_categorised-IsIncomeInsert "mandatory_savings"
        (λ c. record (income_of "Simpanan Wajib" amount c) { mandatory_saving_id = some id })

-- What a settlement of mandatory savings has done.
pub record IsMandatorySettled (o : Balances) (clock : Clock) (id admin_id : ℕ) (s s' : Db)
    : Type 0 where
  pub savings : MandatorySavings
  pub found : find_mandatory_savings id s ≡ some savings
  pub unpaid : is_settled savings.status ≡ false
  pub marked :
      s'.mandatory_savings
      ≡ update_where
          (λ m. m.id == savings.id)
          (set_mandatory_paid clock.instant admin_id)
          s.mandatory_savings
  pub capital : s'.book.balances.capital ≡ s.book.balances.capital +ℤ savings.amount
  pub shu : s'.book.balances.shu ≡ s.book.balances.shu
  pub consistent : IsConsistent o s'.book

module _ (clock : Clock) (id admin_id : ℕ) (m : MandatorySavings) (s s' : Db)
    (found : find_mandatory_savings id s ≡ some m) where
  abbrev mandatory_paid : Db
  mandatory_paid = record s {
    mandatory_savings =
        update_where (λ x. x.id == m.id) (set_mandatory_paid clock.instant admin_id)
          s.mandatory_savings;
  }

  same_key : m.id ≡ id
  same_key = (==_iff m.id id).0 (find-test (λ x. x.id == id) s.mandatory_savings m found)

  mandatory_settled :
      settle_mandatory_in_transaction clock id admin_id s ≡ ok (tt, s')
      → (is_settled m.status ≡ false)
        × (book_income clock.instant m.amount IncomeDestination.capital
              (create_mandatory_savings_income m.id m.amount)
              mandatory_paid
            ≡ ok (tt, s'))
  unfolding settle_mandatory_in_transaction update_mandatory_savings
  mandatory_settled h =
      let again : find_mandatory_savings m.id s ≡ some m =
        subst (λ k. find_mandatory_savings k s ≡ some m) (sym same_key) found in
      ground (arith, found, again)

-- A settlement of mandatory savings that goes through over a ledger behind the balances found them
-- not paid; it marks them as paid, brings their amount to the capital, leaves the surplus alone and
-- keeps the ledger behind the balances.
pub settle_mandatory-IsMandatorySettled :
    (o : Balances) (clock : Clock) (id admin_id : ℕ) (s s' : Db)
    → IsConsistent o s.book
    → settle_mandatory_in_transaction clock id admin_id s ≡ ok (tt, s')
    → IsMandatorySettled o clock id admin_id s s'
unfolding settle_mandatory_in_transaction
settle_mandatory-IsMandatorySettled o clock id admin_id s s' c h =
    elim (Option-cases (find_mandatory_savings id s)) [
      | inl missing ↦ absurd (cc (rw missing at h))
      | inr (m, found) ↦
          let (unpaid, booked) = mandatory_settled clock id admin_id m s s' found h in
          let paid = mandatory_paid clock id admin_id m s s' found in
          let b =
            book_income-IsBooked clock.instant m.amount IncomeDestination.capital
              (create_mandatory_savings_income m.id m.amount)
              (mandatory-IsIncomeInsert m.id m.amount) paid s' booked in
          let f = collected o clock.instant m.amount IncomeDestination.capital paid s' c b in
          record {
            savings = m;
            found = found;
            unpaid = unpaid;
            marked = ap (λ (x : Db). x.mandatory_savings) b.rest;
            capital = f.capital;
            shu = f.shu ∙ +ℤ-zero _;
            consistent = f.consistent;
          }
    ]

-- After a settlement of mandatory savings over a ledger behind the balances, a second settlement of
-- them is refused.
settle_mandatory_twice_refused :
    (o : Balances) (clock : Clock) (id admin_id : ℕ) (s s' : Db)
    → IsConsistent o s.book
    → settle_mandatory_in_transaction clock id admin_id s ≡ ok (tt, s')
    → (later : Clock) (other_admin : ℕ)
    → settle_mandatory_in_transaction later id other_admin s' ≡ err bad_request
unfolding settle_mandatory_in_transaction
settle_mandatory_twice_refused o clock id admin_id s s' c h later other_admin =
    let f = settle_mandatory-IsMandatorySettled o clock id admin_id s s' c h in
    let same = same_key clock id admin_id f.savings s s' f.found in
    rw (f.marked, same)
      (rw (
        find-update_where (λ x. x.id == id) (set_mandatory_paid clock.instant admin_id) (λ x t. t)
          s.mandatory_savings f.savings f.found))
