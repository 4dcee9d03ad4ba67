-- ===== src/Cashbook/Ledger.antt =====
-- The ledger behind the balances: each fund is its opening balance and the signed sum of the rows
-- that still belong to an income or an expense.
use be_lumbung_mesari.Prelude.{
  ℕ, ℤ, pos, ◌+ℤ◌, +ℤ_assoc, ◌≤ℤ◌, int_laws, ◌≡◌, refl, subst, Bool, true, false, Option, some,
  none, List, [], ◌∷◌, update_where, select, find, is_key, ◌⊎◌, if◌then◌else◌, arith, Bool-cases,
  inl, inr,
}
use be_lumbung_mesari.Cashbook.Table.{Balances, CashbookTransaction, Book}
use be_lumbung_mesari.Cashbook.Service.{signed, net}
use be_lumbung_mesari.Cashbook.Rows.{KeepsAmounts}

abbrev pub is_some {ℓ} : {A : Type ℓ} → Option A → Bool
is_some none = false
is_some (some _) = true

-- The row has an income or an expense.
abbrev pub is_owned : CashbookTransaction → Bool
is_owned r = if is_some r.income_id then true else is_some r.expense_id

unfoldable pub share : (CashbookTransaction → ℤ) → CashbookTransaction → ℤ
share amount r = if is_owned r then signed r.direction (amount r) else pos 0

unfoldable pub owned_sum : (CashbookTransaction → ℤ) → List CashbookTransaction → ℤ
owned_sum amount [] = pos 0
owned_sum amount (r ∷ rs) = share amount r +ℤ owned_sum amount rs

-- Amounts are not negative, and no row has two owners.
pub record IsRow (r : CashbookTransaction) : Type 0 where
  pub shu_nonneg : pos 0 ≤ℤ r.shu_amount
  pub capital_nonneg : pos 0 ≤ℤ r.capital_amount
  pub one_owner : (r.income_id ≡ none) ⊎ (r.expense_id ≡ none)

abbrev pub AreRows : List CashbookTransaction → Type 0
AreRows [] = Unit
AreRows (r ∷ rs) = IsRow r × AreRows rs

pub record IsConsistent (opening : Balances) (k : Book) : Type 0 where
  pub shu_sum : k.balances.shu ≡ opening.shu +ℤ owned_sum (λ r. r.shu_amount) k.transactions
  pub capital_sum :
      k.balances.capital ≡ opening.capital +ℤ owned_sum (λ r. r.capital_amount) k.transactions
  pub total_sum : k.balances.total ≡ k.balances.shu +ℤ k.balances.capital
  pub shu_nonneg : pos 0 ≤ℤ k.balances.shu
  pub capital_nonneg : pos 0 ≤ℤ k.balances.capital
  pub rows : AreRows k.transactions

pub find-IsRow :
    (test : CashbookTransaction → Bool) (rs : List CashbookTransaction) (r : CashbookTransaction)
    → AreRows rs
    → find test rs ≡ some r
    → IsRow r
find-IsRow test [] r v h = cc
find-IsRow test (x ∷ rs) r v h = elim (Bool-cases (test x)) [
  | inl t ↦ subst IsRow (ground arith) v.0
  | inr f ↦ find-IsRow test rs r v.1 (ground arith)
]

-- An UPDATE that leaves the amounts and the owners alone.
pub record KeepsRow (f : CashbookTransaction → CashbookTransaction) : Type 0 where
  pub amounts : KeepsAmounts f
  pub income : (r : CashbookTransaction) → (f r).income_id ≡ r.income_id
  pub expense : (r : CashbookTransaction) → (f r).expense_id ≡ r.expense_id

pub deletes_softly : (now : ℕ) → KeepsRow (λ r. record r { deleted_at = some now })
deletes_softly now = record {
  amounts = record { direction = λ r. refl; shu = λ r. refl; capital = λ r. refl };
  income = λ r. refl;
  expense = λ r. refl;
}

-- An UPDATE that takes the owner from the rows that it changes.
record Releases (test : CashbookTransaction → Bool) (f : CashbookTransaction → CashbookTransaction)
    (amount : CashbookTransaction → ℤ) : Type 0 where
  freed : (r : CashbookTransaction) → IsRow r → test r ≡ true → share amount (f r) ≡ pos 0
  owned : (r : CashbookTransaction) → test r ≡ true → share amount r ≡ signed r.direction (amount r)

take_out : (s' o' x n s o : ℤ) → s' ≡ pos 0 → s ≡ x → o' +ℤ n ≡ o → (s' +ℤ o') +ℤ (x +ℤ n) ≡ s +ℤ o
take_out s' o' x n s o e₁ e₂ e₃ = rw (e₁, e₂, ← e₃) (omega int_laws)

-- Releasing the rows of an owner takes exactly their net out of the sum.
module _ (test : CashbookTransaction → Bool) (f : CashbookTransaction → CashbookTransaction)
    (amount : CashbookTransaction → ℤ) (rel : Releases test f amount) where
  owned_sum-release :
      (rs : List CashbookTransaction)
      → AreRows rs
      → owned_sum amount (update_where test f rs) +ℤ net amount (select test rs)
        ≡ owned_sum amount rs
  unfolding owned_sum net
  owned_sum-release [] v = omega int_laws
  owned_sum-release (r ∷ rs) v = elim (Bool-cases (test r)) [
    | inl t ↦
        rw t (take_out _ _ _ _ _ _ (rel.freed r v.0 t) (rel.owned r t) (owned_sum-release rs v.1))
    | inr n ↦ rw n (rw (+ℤ_assoc, owned_sum-release rs v.1))
  ]

abbrev pub without_expense : CashbookTransaction → CashbookTransaction
without_expense r = record r { expense_id = none }

abbrev pub without_income : CashbookTransaction → CashbookTransaction
without_income r = record r { income_id = none }

freed_expense :
    (id : ℕ) (amount : CashbookTransaction → ℤ) (r : CashbookTransaction)
    → IsRow r
    → is_key r.expense_id id ≡ true
    → share amount (without_expense r) ≡ pos 0
unfolding share
freed_expense id amount r v t = ground (arith, v.one_owner)

owned_expense :
    (id : ℕ) (amount : CashbookTransaction → ℤ) (r : CashbookTransaction)
    → is_key r.expense_id id ≡ true
    → share amount r ≡ signed r.direction (amount r)
unfolding share
owned_expense id amount r t = ground arith

freed_income :
    (id : ℕ) (amount : CashbookTransaction → ℤ) (r : CashbookTransaction)
    → IsRow r
    → is_key r.income_id id ≡ true
    → share amount (without_income r) ≡ pos 0
unfolding share
freed_income id amount r v t = ground (arith, v.one_owner)

owned_income :
    (id : ℕ) (amount : CashbookTransaction → ℤ) (r : CashbookTransaction)
    → is_key r.income_id id ≡ true
    → share amount r ≡ signed r.direction (amount r)
unfolding share
owned_income id amount r t = ground arith

pub owned_sum-release_expense :
    (id : ℕ) (amount : CashbookTransaction → ℤ) (rs : List CashbookTransaction)
    → AreRows rs
    → owned_sum amount (update_where (λ r. is_key r.expense_id id) without_expense rs)
        +ℤ net amount (select (λ r. is_key r.expense_id id) rs)
      ≡ owned_sum amount rs
owned_sum-release_expense id amount =
    owned_sum-release (λ r. is_key r.expense_id id) without_expense amount
      (record { freed = freed_expense id amount; owned = owned_expense id amount })

pub owned_sum-release_income :
    (id : ℕ) (amount : CashbookTransaction → ℤ) (rs : List CashbookTransaction)
    → AreRows rs
    → owned_sum amount (update_where (λ r. is_key r.income_id id) without_income rs)
        +ℤ net amount (select (λ r. is_key r.income_id id) rs)
      ≡ owned_sum amount rs
owned_sum-release_income id amount =
    owned_sum-release (λ r. is_key r.income_id id) without_income amount
      (record { freed = freed_income id amount; owned = owned_income id amount })

-- An UPDATE that leaves amounts and owners alone leaves the sums alone.
module _ (test : CashbookTransaction → Bool) (f : CashbookTransaction → CashbookTransaction)
    (amount : CashbookTransaction → ℤ)
    (same : (r : CashbookTransaction) → share amount (f r) ≡ share amount r) where
  pub owned_sum-update :
      (rs : List CashbookTransaction)
      → owned_sum amount (update_where test f rs) ≡ owned_sum amount rs
  unfolding owned_sum
  owned_sum-update [] = refl
  owned_sum-update (r ∷ rs) = elim (Bool-cases (test r)) [
    | inl t ↦ rw (t, same r, owned_sum-update rs)
    | inr n ↦ rw (n, owned_sum-update rs)
  ]

pub AreRows-update :
    (test : CashbookTransaction → Bool) (f : CashbookTransaction → CashbookTransaction)
    → ((r : CashbookTransaction) → IsRow r → IsRow (f r))
    → (rs : List CashbookTransaction) → AreRows rs
    → AreRows (update_where test f rs)
AreRows-update test f keep [] v = v
AreRows-update test f keep (r ∷ rs) v = elim (Bool-cases (test r)) [
  | inl t ↦ rw t (keep r v.0, AreRows-update test f keep rs v.1)
  | inr n ↦ rw n (v.0, AreRows-update test f keep rs v.1)
]

-- An UPDATE that leaves amounts alone, and the key that is selected by, leaves the net alone.
module _ (p test : CashbookTransaction → Bool) (f : CashbookTransaction → CashbookTransaction)
    (amount : CashbookTransaction → ℤ) (same_key : (r : CashbookTransaction) → p (f r) ≡ p r)
    (same_direction : (r : CashbookTransaction) → (f r).direction ≡ r.direction)
    (same_amount : (r : CashbookTransaction) → amount (f r) ≡ amount r) where
  pub net-select-update :
      (rs : List CashbookTransaction)
      → net amount (select p (update_where test f rs)) ≡ net amount (select p rs)
  unfolding net
  net-select-update [] = refl
  net-select-update (r ∷ rs) = elim (Bool-cases (test r)) [
    | inl t ↦ elim (Bool-cases (p r)) [
      | inl y ↦ rw (t, same_key r, y, same_amount r, same_direction r, net-select-update rs)
      | inr n ↦ rw (t, same_key r, n, net-select-update rs)
    ]
    | inr u ↦ elim (Bool-cases (p r)) [
      | inl y ↦ rw (u, y, net-select-update rs)
      | inr n ↦ rw (u, n, net-select-update rs)
    ]
  ]
