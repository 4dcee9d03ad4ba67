-- ===== src/Expenses/Split.antt =====
-- What the split of an expense over the two funds guarantees.
use be_lumbung_mesari.Prelude.{ℤ, pos, ◌+ℤ◌, ◌≤ℤ◌, ◌<ℤ◌, int_laws, ◌≡◌, ◌≢◌, ◌↔◌, refl, some}
use be_lumbung_mesari.Exec.{ok, err, insufficient_funds}
use be_lumbung_mesari.Db.{ExpenseSource, auto, total, capital, shu}
use be_lumbung_mesari.Expenses.Allocation.{Allocation, allocate}

-- What a source can pay.
unfoldable pub available : ExpenseSource → ℤ → ℤ → ℤ
available shu shu_balance capital_balance = shu_balance
available capital shu_balance capital_balance = capital_balance
available _ shu_balance capital_balance = shu_balance +ℤ capital_balance

pub record IsSplit (amount shu_balance capital_balance : ℤ) (a : Allocation) : Type 0 where
  pub adds_up : a.shu_amount +ℤ a.capital_amount ≡ amount
  pub shu_nonneg : pos 0 ≤ℤ a.shu_amount
  pub capital_nonneg : pos 0 ≤ℤ a.capital_amount
  pub shu_covered : a.shu_amount ≤ℤ shu_balance
  pub capital_covered : a.capital_amount ≤ℤ capital_balance

module _ (x s c : ℤ) (hx : pos 0 ≤ℤ x) (hs : pos 0 ≤ℤ s) (hc : pos 0 ≤ℤ c) where
  -- For an amount and funds that are not negative, an allocation adds up to the amount, has no
  -- negative part, and draws on no fund more than it holds.
  pub allocate-IsSplit :
      (source : ExpenseSource) (a : Allocation)
      → allocate (some source) x s c ≡ ok a
      → IsSplit x s c a
  unfolding allocate
  allocate-IsSplit shu a h = grind int_laws
  allocate-IsSplit capital a h = grind int_laws
  allocate-IsSplit total a h = grind int_laws
  allocate-IsSplit auto a h = grind int_laws

  -- For an amount and funds that are not negative, an allocation is refused for lack of funds
  -- exactly when its source holds less than the amount.
  pub allocate_refused :
      (source : ExpenseSource)
      → allocate (some source) x s c ≡ err insufficient_funds ↔ (available source s c <ℤ x)
  unfolding allocate available
  allocate_refused shu = (λ h. grind int_laws, λ h. grind int_laws)
  allocate_refused capital = (λ h. grind int_laws, λ h. grind int_laws)
  allocate_refused total = (λ h. grind int_laws, λ h. grind int_laws)
  allocate_refused auto = (λ h. grind int_laws, λ h. grind int_laws)

  -- For an amount and funds that are not negative and a source other than the surplus, the surplus
  -- is drawn on only when the capital is used up.
  capital_first :
      (source : ExpenseSource) (a : Allocation)
      → source ≢ shu
      → allocate (some source) x s c ≡ ok a
      → pos 0 <ℤ a.shu_amount
      → a.capital_amount ≡ c
  unfolding allocate
  capital_first shu a n h p = absurd (n refl)
  capital_first capital a n h p = grind int_laws
  capital_first total a n h p = grind int_laws
  capital_first auto a n h p = grind int_laws

-- With a surplus that is not negative, the sources `auto` and `total` allocate alike.
auto-eq-total : (x s c : ℤ) → pos 0 ≤ℤ s → allocate (some auto) x s c ≡ allocate (some total) x s c
unfolding allocate
auto-eq-total x s c hs = grind int_laws

-- The source `capital` draws on the capital alone.
pub allocate-capital :
    (x u c : ℤ) (a : Allocation)
    → allocate (some capital) x u c ≡ ok a
    → (a.shu_amount ≡ pos 0) × (a.capital_amount ≡ x) × (x ≤ℤ c)
unfolding allocate
allocate-capital x u c a h = grind int_laws
