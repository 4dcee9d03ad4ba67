-- ===== src/Incomes.antt =====
-- The methods of `IncomesService` (src/incomes/incomes.service.ts), and the queries of
-- src/incomes/incomes.repository.ts; and `book_income`, the pair of calls with which the other
-- services record an income and its entry.
pub mod Bookings
use be_lumbung_mesari.Prelude.{
  ℕ, ◌+◌, ℤ, ◌≡◌, refl, Option, none, some, List, ◌∷◌, String, str_eq, find, arith,
}
use be_lumbung_mesari.Exec.{ok, Tx, not_found, gets, or_throw, pure, ◌>>=◌, ◌>>◌}
use be_lumbung_mesari.Cashbook.{IncomeDestination, create_income_transaction}
use be_lumbung_mesari.Db.{Income, IncomeCategory, Db, in_book}

abbrev pub find_category_by_code : String → Tx Db (Option IncomeCategory)
find_category_by_code code = gets (λ s. find (λ c. str_eq c.code code) s.income_categories)

abbrev pub create_income : Income → Tx Db Income
create_income row s =
    let inserted = record row { id = s.next_id } in
    ok (inserted, record s { incomes = inserted ∷ s.incomes; next_id = s.next_id + 1 })

-- The category with this code, which must be there, and then the row.
unfoldable pub create_categorised : String → (ℕ → Income) → Tx Db Income
create_categorised code row = do
  found ← find_category_by_code code
  category ← or_throw found not_found
  create_income (row category.id)

abbrev pub income_of : String → ℤ → ℕ → Income
income_of name amount category_id = record {
  id = 0;
  name = name;
  income_category_id = category_id;
  amount = amount;
  loan_id = none;
  installment_id = none;
  principal_saving_id = none;
  mandatory_saving_id = none;
}

unfoldable pub create_principal_savings_income : ℕ → ℤ → Tx Db Income
unfolding create_categorised
create_principal_savings_income id amount =
    create_categorised "principal_savings"
      (λ c. record (income_of "Simpanan Pokok" amount c) { principal_saving_id = some id })

unfoldable pub create_mandatory_savings_income : ℕ → ℤ → Tx Db Income
unfolding create_categorised
create_mandatory_savings_income id amount =
    create_categorised "mandatory_savings"
      (λ c. record (income_of "Simpanan Wajib" amount c) { mandatory_saving_id = some id })

unfoldable pub create_installment_principal_income : ℕ → String → ℤ → Tx Db Income
unfolding create_categorised
create_installment_principal_income id name amount =
    create_categorised "installment_principal"
      (λ c. record (income_of name amount c) { installment_id = some id })

unfoldable pub create_installment_interest_income : ℕ → String → ℤ → Tx Db Income
unfolding create_categorised
create_installment_interest_income id name amount =
    create_categorised "loan_interest"
      (λ c. record (income_of name amount c) { installment_id = some id })

unfoldable pub create_loan_admin_fee_income : ℕ → ℤ → Tx Db Income
unfolding create_categorised
create_loan_admin_fee_income id amount =
    create_categorised "loan_admin_fee"
      (λ c. record (income_of "Biaya Administrasi Pinjaman" amount c) { loan_id = some id })

unfoldable pub create_installment_penalty_income : ℕ → String → ℤ → Tx Db Income
unfolding create_categorised
create_installment_penalty_income id name amount =
    create_categorised "late_payment_penalty"
      (λ c. record (income_of name amount c) { installment_id = some id })

-- An income, and its entry in the cashbook.
unfoldable pub book_income : ℕ → ℤ → IncomeDestination → Tx Db Income → Tx Db Unit
book_income now amount destination create = do
  income ← create
  in_book (create_income_transaction now income.id amount destination none)
  pure tt
