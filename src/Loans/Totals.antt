-- ===== src/Loans/Totals.antt =====
-- What the payments of a loan add up to.
use be_lumbung_mesari.Prelude.{ℕ, ◌+◌, ◌-◌, ◌*◌, ◌/◌, ◌≤◌, ◌<◌, ◌≡◌, ◌↔◌, arith}
use native.Mathlib.Nat.{mul-div_cancel}
use be_lumbung_mesari.Loans.Rounding.{round_up_least}
use be_lumbung_mesari.Loans.Payments.{
  scale, LoanPayments, rounded_monthly_principal, calculate_loan_payments,
}

-- 500 rupiah
abbrev pub step : ℕ
step = 5000000

div_step : (k t : ℕ) → 0 < t → k * (500 * (scale * t)) / t ≡ k * step
div_step k t h =
    let e : k * (500 * (scale * t)) ≡ (k * step) * t = omega arith in
    rw e (mul-div_cancel (k * step) h)

-- For a tenor that is not zero, the monthly principal is the least multiple of 500 rupiah with which the payments of all months
-- cover the principal.
rounded_monthly_principal_least :
    (principal tenor : ℕ)
    → 0 < tenor
    → (k : ℕ) × (rounded_monthly_principal principal tenor ≡ k * step)
      × (principal ≤ k * step * tenor)
      × ((m : ℕ) → principal ≤ m * step * tenor → k * step * tenor ≤ m * step * tenor)
unfolding rounded_monthly_principal
rounded_monthly_principal_least principal tenor h =
    let (k, e, above, least) = round_up_least (scale * tenor) principal (omega (arith, h)) in
    (
      k,
      rw e (div_step k tenor h),
      omega (arith, above),
      λ m covers. omega (arith, least m (omega (arith, covers))),
    )

-- What a member pays in all, against what the loan says is payable.
abbrev pub paid_in_all : LoanPayments → ℕ → ℕ
paid_in_all d tenor = d.monthly_payment * (tenor - 1) + d.last_month_payment

-- The same sums over numbers alone: `n` months and the last.
module _ (p r i n t : ℕ) (months : t ≡ n + 1) where
  abbrev paid : ℕ
  paid = (r * scale + i) * n + ((p - r * n) * scale + i)

  regrouped : (r * scale + i) * n + i ≡ r * n * scale + i * t
  regrouped = rw months (grind arith)

  covers : p * scale + i * t ≤ paid
  covers = omega (arith, regrouped)

  exact : r * n ≤ p → paid ≡ p * scale + i * t
  exact h = omega (arith, h, regrouped)

  only_exact : paid ≡ p * scale + i * t → r * n ≤ p
  only_exact h = omega (arith, h, regrouped)

-- For a tenor that is not zero, the payments add up to what is payable exactly when the months before the last do not pay more
-- than the principal; otherwise they add up to more.
pub paid_in_all_lem :
    (principal rate tenor : ℕ)
    → 0 < tenor
    → ((calculate_loan_payments principal rate tenor).total_payable
        ≤ paid_in_all (calculate_loan_payments principal rate tenor) tenor)
      × (paid_in_all (calculate_loan_payments principal rate tenor) tenor
            ≡ (calculate_loan_payments principal rate tenor).total_payable
          ↔ (rounded_monthly_principal principal tenor * (tenor - 1) ≤ principal))
unfolding calculate_loan_payments
paid_in_all_lem principal rate tenor h =
    let r = rounded_monthly_principal principal tenor in
    let months : tenor ≡ (tenor - 1) + 1 = omega (arith, h) in
    (
      covers principal r (principal * rate) (tenor - 1) tenor months,
      (
        only_exact principal r (principal * rate) (tenor - 1) tenor months,
        exact principal r (principal * rate) (tenor - 1) tenor months,
      ),
    )
