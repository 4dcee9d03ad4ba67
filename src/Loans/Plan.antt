-- ===== src/Loans/Plan.antt =====
-- The rows of a loan's schedule: their number, and what they add up to.
use be_lumbung_mesari.Prelude.{
  ℕ, zero, suc, ◌+◌, ◌-◌, ◌*◌, ◌≤◌, ◌<◌, ℤ, pos, negsuc, ◌+ℤ◌, ◌-ℤ◌, ◌*ℤ◌, ◌<ℤ◌, int_laws, pos_mul,
  ◌≡◌, refl, ap, ◌∙◌, sym, subst, ==_refl, List, [], ◌∷◌, length, ◌==◌, if◌then◌else◌, arith, Bool,
  false, true,
}
use be_lumbung_mesari.Calendar.{Date}
use be_lumbung_mesari.Db.{Loan, LoanPeriod, Installment}
use be_lumbung_mesari.Loans.Payments.{
  scale, rounded_monthly_principal, calculate_loan_payments, last_month_principal,
}
use be_lumbung_mesari.Loans.Schedule.{
  monthly_principal, remaining_principal, installment_at, installments_from, generate_installments,
}
use be_lumbung_mesari.Loans.Application.{CreateLoanDto, loan_data}

unfoldable pub sum_of : (Installment → ℤ) → List Installment → ℤ
sum_of amount [] = pos 0
sum_of amount (i ∷ is) = amount i +ℤ sum_of amount is

mul_suc : (x : ℤ) (n : ℕ) → x *ℤ pos (suc n) ≡ x +ℤ x *ℤ pos n
unfolding ◌*ℤ◌
mul_suc (pos a) n = grind int_laws
mul_suc (negsuc a) n = grind int_laws

mul_zero : (x : ℤ) → x *ℤ pos 0 ≡ pos 0
unfolding ◌*ℤ◌
mul_zero x = ground arith

swap_first : (a b c : ℤ) → a +ℤ (b +ℤ c) ≡ b +ℤ (a +ℤ c)
swap_first a b c = omega int_laws

put_back : (x y : ℤ) → (x -ℤ y) +ℤ y ≡ x
put_back x y = omega int_laws

-- A column that is `m` in every month and `r` in the last.
module _ (loan : Loan) (tenor by : ℕ) (date : Date) (amount : Installment → ℤ) (m r : ℤ)
    (shape : (i : ℕ)
      → amount (installment_at loan tenor by date i) ≡ (if i == tenor then r else m)) where
  sum_from :
      (k i : ℕ)
      → i + k ≡ tenor
      → sum_of amount (installments_from loan tenor by date i (suc k)) ≡ r +ℤ m *ℤ pos k
  unfolding installments_from sum_of
  sum_from zero i h =
      let last : (i == tenor) ≡ true = ground arith in rw (shape i, last, mul_zero) refl
  sum_from (suc k) i h =
      let other : (i == tenor) ≡ false = ground arith in
      rw (shape i, other, sum_from k (i + 1) (omega (arith, h)), mul_suc m k) (swap_first _ _ _)

  sum_of-generate :
      0 < tenor
      → sum_of amount (generate_installments loan tenor by date) ≡ r +ℤ m *ℤ pos (tenor - 1)
  unfolding generate_installments
  sum_of-generate h =
      let e : tenor ≡ suc (tenor - 1) = omega (arith, h) in
      subst
        (λ k. sum_of amount (installments_from loan tenor by date 1 k) ≡ r +ℤ m *ℤ pos (tenor - 1))
        (sym e) (sum_from (tenor - 1) 1 (omega (arith, h)))

shape_constant : (x : ℤ) (b : Bool) → x ≡ (if b then x else x)
shape_constant x b = ground arith

-- For a tenor that is not zero, the principals of a loan's installments add up to its principal,
-- whatever its payments are.
pub principal_sum :
    (loan : Loan) (tenor by : ℕ) (date : Date)
    → 0 < tenor
    → sum_of (λ i. i.principal_amount) (generate_installments loan tenor by date)
      ≡ loan.principal_amount
principal_sum loan tenor by date h =
    sum_of-generate loan tenor by date (λ i. i.principal_amount) (monthly_principal loan)
      (remaining_principal loan tenor) (λ i. refl) h
    ∙ put_back _ _

-- Their totals add up to the payments of the loan.
pub total_sum :
    (loan : Loan) (tenor by : ℕ) (date : Date)
    → 0 < tenor
    → sum_of (λ i. i.total_amount) (generate_installments loan tenor by date)
      ≡ loan.last_month_payment +ℤ loan.monthly_payment *ℤ pos (tenor - 1)
total_sum loan tenor by date h =
    sum_of-generate loan tenor by date (λ i. i.total_amount) loan.monthly_payment
      loan.last_month_payment (λ i. refl) h

length-from :
    (loan : Loan) (tenor by : ℕ) (date : Date) (i k : ℕ)
    → length (installments_from loan tenor by date i k) ≡ k
unfolding installments_from
length-from loan tenor by date i zero = refl
length-from loan tenor by date i (suc k) = ap suc (length-from loan tenor by date (i + 1) k)

either_way :
    (b : Bool) (x y u v w : ℤ)
    → x ≡ u +ℤ w
    → y ≡ v +ℤ w
    → (if b then x else y) ≡ (if b then u else v) +ℤ w
either_way true x y u v w e f = e
either_way false x y u v w e f = f

-- How PostgreSQL rounds to four decimals: whole ten-thousandths stay.
pub record IsNumeric (store : ℤ → ℤ) : Type 0 where
  pub shift : (k x : ℕ) → store (pos (k * scale + x)) ≡ pos k +ℤ store (pos x)

module _ (store : ℤ → ℤ) (numeric : IsNumeric store) (rate : ℕ) (today : Date) (uid : ℕ)
    (dto : CreateLoanDto) (p : LoanPeriod) where
  abbrev pub stored : Loan
  stored = loan_data store rate today uid dto p

  abbrev r : ℕ
  r = rounded_monthly_principal dto.amount p.tenor

  take_away : (a b : ℤ) → (a +ℤ b) -ℤ b ≡ a
  take_away a b = omega int_laws

  stored_monthly : monthly_principal stored ≡ pos r
  unfolding calculate_loan_payments
  stored_monthly =
      ap (λ x. x -ℤ stored.interest_amount) (numeric.shift r (dto.amount * p.interest_rate))
      ∙ take_away _ _

  pos_sub : (a b : ℕ) → b ≤ a → pos a -ℤ pos b ≡ pos (a - b)
  pos_sub a b h = omega (int_laws, h)

  stored_remaining : remaining_principal stored p.tenor ≡ pos dto.amount -ℤ pos (r * (p.tenor - 1))
  stored_remaining = rw (stored_monthly, pos_mul) refl

  -- If the months before the last do not pay more than the principal, each row of the schedule of a
  -- stored loan owes its principal and its interest.
  row_adds_up :
      (by : ℕ) (date : Date) (i : ℕ)
      → r * (p.tenor - 1) ≤ dto.amount
      → (installment_at stored p.tenor by date i).total_amount
        ≡ (installment_at stored p.tenor by date i).principal_amount
          +ℤ (installment_at stored p.tenor by date i).interest_amount
  unfolding calculate_loan_payments
  row_adds_up by date i h =
      let interest = dto.amount * p.interest_rate in
      either_way (i == p.tenor) _ _ _ _ _
        (numeric.shift (last_month_principal dto.amount p.tenor) interest
          ∙ ap (λ x. x +ℤ store (pos interest)) (sym (stored_remaining ∙ pos_sub _ _ h)))
        (numeric.shift r interest ∙ ap (λ x. x +ℤ store (pos interest)) (sym stored_monthly))

  -- Otherwise the last row has a principal below zero, while its total is the interest alone.
  pub last_row_negative :
      (by : ℕ) (date : Date)
      → dto.amount < r * (p.tenor - 1)
      → ((installment_at stored p.tenor by date p.tenor).principal_amount <ℤ pos 0)
        × ((installment_at stored p.tenor by date p.tenor).total_amount
            ≡ (installment_at stored p.tenor by date p.tenor).interest_amount)
  unfolding calculate_loan_payments
  last_row_negative by date h =
      let nothing_left : dto.amount - r * (p.tenor - 1) ≡ 0 = omega (arith, h) in
      rw (==_refl, stored_remaining, nothing_left)
        (omega (int_laws, h), ap (λ n. store (pos n)) (omega arith))
