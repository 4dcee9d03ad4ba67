-- ===== src/Incomes/Bookings.antt =====
-- What booking an income leaves behind, and that it keeps the ledger.
use be_lumbung_mesari.Prelude.{
  ℕ, ◌+◌, ℤ, pos, ◌+ℤ◌, +ℤ_assoc, +ℤ-zero, ◌≡◌, refl, sym, ap, ◌∙◌, subst, none, some, ◌∷◌, String,
  arith,
}
use be_lumbung_mesari.Exec.{ok, ok-injective, Tx, pure, >>=-eq-ok, >>-eq-ok}
use be_lumbung_mesari.Cashbook.{
  Balances, CashbookTransaction, IncomeDestination, shu_part, capital_part,
  create_income_transaction,
}
use be_lumbung_mesari.Cashbook.Ledger.{IsConsistent}
use be_lumbung_mesari.Cashbook.Consistency.{
  create_income_transaction-IsConsistent, create_income_transaction-Moved,
}
use be_lumbung_mesari.Db.{Db, Income, in_book, in_book-eq-ok}
use be_lumbung_mesari.Incomes.{
  book_income, income_of, create_categorised, create_loan_admin_fee_income,
  create_installment_principal_income, create_installment_interest_income,
  create_installment_penalty_income,
}

-- An insert of an income: one row more, and nothing else but the next key.
abbrev pub IsAdded : Db → Income → Db → Type 0
IsAdded s i s' = s' ≡ record s { incomes = i ∷ s.incomes; next_id = s.next_id + 1 }

-- A step that only inserts an income.
abbrev pub IsIncomeInsert : Tx Db Income → Type 0
IsIncomeInsert m = (s : Db) (i : Income) (s' : Db) → m s ≡ ok (i, s') → IsAdded s i s'

pub create_categorised-IsIncomeInsert :
    (code : String) (row : ℕ → Income) → IsIncomeInsert (create_categorised code row)
unfolding create_categorised
create_categorised-IsIncomeInsert code row s i s' h = ground arith

module _ (id : ℕ) (amount : ℤ) where
  pub admin_fee-IsIncomeInsert : IsIncomeInsert (create_loan_admin_fee_income id amount)
  unfolding create_loan_admin_fee_income
  admin_fee-IsIncomeInsert =
      create_categorised-IsIncomeInsert "loan_admin_fee"
        (λ c. record (income_of "Biaya Administrasi Pinjaman" amount c) { loan_id = some id })

  pub principal-IsIncomeInsert :
      (name : String) → IsIncomeInsert (create_installment_principal_income id name amount)
  unfolding create_installment_principal_income
  principal-IsIncomeInsert name =
      create_categorised-IsIncomeInsert "installment_principal"
        (λ c. record (income_of name amount c) { installment_id = some id })

  pub interest-IsIncomeInsert :
      (name : String) → IsIncomeInsert (create_installment_interest_income id name amount)
  unfolding create_installment_interest_income
  interest-IsIncomeInsert name =
      create_categorised-IsIncomeInsert "loan_interest"
        (λ c. record (income_of name amount c) { installment_id = some id })

  pub penalty-IsIncomeInsert :
      (name : String) → IsIncomeInsert (create_installment_penalty_income id name amount)
  unfolding create_installment_penalty_income
  penalty-IsIncomeInsert name =
      create_categorised-IsIncomeInsert "late_payment_penalty"
        (λ c. record (income_of name amount c) { installment_id = some id })

-- A booked income: its row, and its entry in the book; no other table has changed.
pub record IsBooked (now : ℕ) (amount : ℤ) (destination : IncomeDestination) (s s' : Db)
    : Type 0 where
  pub income : Income
  pub entry : CashbookTransaction
  pub booked :
      create_income_transaction now income.id amount destination none s.book ≡ ok (entry, s'.book)
  pub rest : s' ≡ record s { book = s'.book; incomes = income ∷ s.incomes; next_id = s.next_id + 1 }

module _ (now : ℕ) (amount : ℤ) (destination : IncomeDestination) (create : Tx Db Income)
    (inserts : IsIncomeInsert create) where
  IsBooked-from :
      (s : Db) (income : Income) (s₁ : Db) (entry : CashbookTransaction) (s' : Db)
      → IsAdded s income s₁
      → in_book (create_income_transaction now income.id amount destination none) s₁
        ≡ ok (entry, s')
      → IsBooked now amount destination s s'
  IsBooked-from s income s₁ entry s' added b =
      let g =
        in_book-eq-ok (create_income_transaction now income.id amount destination none) s₁ entry s'
          b in
      record {
        income = income;
        entry = entry;
        booked = rw added at g.0;
        rest = g.1 ∙ ap (λ (x : Db). record x { book = s'.book }) added;
      }

  pub book_income-IsBooked :
      (s s' : Db)
      → book_income now amount destination create s ≡ ok (tt, s')
      → IsBooked now amount destination s s'
  unfolding book_income
  book_income-IsBooked s s' h =
      let ((income, s₁), e₁, h₁) = >>=-eq-ok create _ s (tt, s') h in
      let ((entry, s₂), e₂, h₂) =
        >>-eq-ok (in_book (create_income_transaction now income.id amount destination none))
          (pure tt) s₁ (tt, s') h₁ in
      subst (λ (p : Unit × Db). IsBooked now amount destination s p.1) (ok-injective h₂)
        (IsBooked-from s income s₁ entry s₂ (inserts s income s₁ e₁) e₂)

pub IsBooked-IsConsistent :
    (o : Balances) (now : ℕ) (amount : ℤ) (d : IncomeDestination) (s s' : Db)
    → IsConsistent o s.book
    → IsBooked now amount d s s'
    → IsConsistent o s'.book
IsBooked-IsConsistent o now amount d s s' c b =
    create_income_transaction-IsConsistent o now b.income.id amount d none s.book b.entry s'.book c
      b.booked

-- Money has come in: `u` to the surplus and `c` to the capital, with the ledger behind it.
pub record IsCollected (o : Balances) (u c : ℤ) (s s' : Db) : Type 0 where
  pub shu : s'.book.balances.shu ≡ s.book.balances.shu +ℤ u
  pub capital : s'.book.balances.capital ≡ s.book.balances.capital +ℤ c
  pub consistent : IsConsistent o s'.book
  pub installments : s'.installments ≡ s.installments
  pub loans : s'.loans ≡ s.loans

module _ (o : Balances) where
  pub collected :
      (now : ℕ) (amount : ℤ) (d : IncomeDestination) (s s' : Db)
      → IsConsistent o s.book
      → IsBooked now amount d s s'
      → IsCollected o (shu_part d amount) (capital_part d amount) s s'
  collected now amount d s s' c b =
      let m =
        create_income_transaction-Moved o now b.income.id amount d none s.book b.entry s'.book c
          b.booked in
      record {
        shu = m.shu;
        capital = m.capital;
        consistent = IsBooked-IsConsistent o now amount d s s' c b;
        installments = ap (λ (x : Db). x.installments) b.rest;
        loans = ap (λ (x : Db). x.loans) b.rest;
      }

  pub IsCollected-trans :
      (u c v d : ℤ) (s s₁ s' : Db)
      → IsCollected o u c s s₁
      → IsCollected o v d s₁ s'
      → IsCollected o (u +ℤ v) (c +ℤ d) s s'
  IsCollected-trans u c v d s s₁ s' f g = record {
    shu = g.shu ∙ ap (λ x. x +ℤ v) f.shu ∙ +ℤ_assoc _ _ _;
    capital = g.capital ∙ ap (λ x. x +ℤ d) f.capital ∙ +ℤ_assoc _ _ _;
    consistent = g.consistent;
    installments = g.installments ∙ f.installments;
    loans = g.loans ∙ f.loans;
  }

  pub nothing-IsCollected : (s : Db) → IsConsistent o s.book → IsCollected o (pos 0) (pos 0) s s
  nothing-IsCollected s c = record {
    shu = sym (+ℤ-zero _);
    capital = sym (+ℤ-zero _);
    consistent = c;
    installments = refl;
    loans = refl;
  }
