-- ===== src/Cashbook/Movement.antt =====
-- What one fired trigger does to the balances.
use be_lumbung_mesari.Prelude.{ℤ, pos, ◌+ℤ◌, ◌-ℤ◌, ◌≤ℤ◌, int_laws, ◌≡◌, ◌∙◌, ap, arith}
use be_lumbung_mesari.Exec.{ok, when, ◌>>◌, >>-eq-ok}
use be_lumbung_mesari.Cashbook.Table.{
  Balances, Direction, inflow, outflow, write_balance, subtract_balance, shu, capital, total,
}
use be_lumbung_mesari.Cashbook.Trigger.{is_positive, subtract_amounts, cashbook_insert_balance}

abbrev pub moved : Direction → ℤ → ℤ → ℤ
moved inflow x amount = x +ℤ amount
moved outflow x amount = x -ℤ amount

-- `s` and `c` have moved in the direction `d`, and neither fund is below zero.
pub record Moved (d : Direction) (s c : ℤ) (b b' : Balances) : Type 0 where
  pub shu : b'.shu ≡ moved d b.shu s
  pub capital : b'.capital ≡ moved d b.capital c
  pub total : b'.total ≡ moved d b.total (s +ℤ c)
  pub shu_nonneg : pos 0 ≤ℤ b'.shu
  pub capital_nonneg : pos 0 ≤ℤ b'.capital

module _ (amount : ℤ) (b b' : Balances) (nonneg : pos 0 ≤ℤ amount) where
  subtract_shu :
      pos 0 ≤ℤ b.shu
      → when (is_positive amount) (subtract_balance shu amount) b ≡ ok (tt, b')
      → (b'.shu ≡ b.shu -ℤ amount)
        × (b'.capital ≡ b.capital)
        × (b'.total ≡ b.total)
        × (pos 0 ≤ℤ b'.shu)
  unfolding write_balance
  subtract_shu bs h = grind int_laws

  subtract_capital :
      pos 0 ≤ℤ b.capital
      → when (is_positive amount) (subtract_balance capital amount) b ≡ ok (tt, b')
      → (b'.capital ≡ b.capital -ℤ amount)
        × (b'.shu ≡ b.shu)
        × (b'.total ≡ b.total)
        × (pos 0 ≤ℤ b'.capital)
  unfolding write_balance
  subtract_capital bc h = grind int_laws

subtract_total :
    (amount : ℤ) (b b' : Balances)
    → subtract_balance total amount b ≡ ok (tt, b')
    → (b'.total ≡ b.total -ℤ amount) × (b'.capital ≡ b.capital) × (b'.shu ≡ b.shu)
unfolding write_balance
subtract_total amount b b' h = grind int_laws

module _ (s c : ℤ) (b b' : Balances) (hs : pos 0 ≤ℤ s) (hc : pos 0 ≤ℤ c) (bs : pos 0 ≤ℤ b.shu)
    (bc : pos 0 ≤ℤ b.capital) where
  insert-in-Moved : cashbook_insert_balance inflow s c b ≡ ok (tt, b') → Moved inflow s c b b'
  unfolding cashbook_insert_balance write_balance
  insert-in-Moved h = grind int_laws

  subtract-Moved : subtract_amounts s c b ≡ ok (tt, b') → Moved outflow s c b b'
  subtract-Moved h =
      let ((_, b₁), e₁, h₁) =
        >>-eq-ok
          (when (is_positive s) (subtract_balance shu s)
            >> when (is_positive c) (subtract_balance capital c))
          (subtract_balance total (s +ℤ c)) b (tt, b') h in
      let ((_, b₂), e₂, h₂) =
        >>-eq-ok (when (is_positive s) (subtract_balance shu s))
          (when (is_positive c) (subtract_balance capital c)) b (tt, b₁) e₁ in
      let f₂ = subtract_shu s b b₂ hs bs e₂ in
      let f₁ = subtract_capital c b₂ b₁ hc (rw f₂.1 bc) h₂ in
      let f₀ = subtract_total (s +ℤ c) b₁ b' h₁ in
      record {
        shu = f₀.2 ∙ f₁.1 ∙ f₂.0;
        capital = f₀.1 ∙ f₁.0 ∙ ap (λ x. x -ℤ c) f₂.1;
        total = f₀.0 ∙ ap (λ x. x -ℤ (s +ℤ c)) (f₁.2 ∙ f₂.2);
        shu_nonneg = rw (f₀.2, f₁.1) f₂.3;
        capital_nonneg = rw f₀.1 f₁.3;
      }

  insert-out-Moved : cashbook_insert_balance outflow s c b ≡ ok (tt, b') → Moved outflow s c b b'
  unfolding cashbook_insert_balance
  insert-out-Moved h = ground (arith, subtract-Moved)

pub insert-Moved :
    (d : Direction) (s c : ℤ) (b b' : Balances)
    → pos 0 ≤ℤ s
    → pos 0 ≤ℤ c
    → pos 0 ≤ℤ b.shu
    → pos 0 ≤ℤ b.capital
    → cashbook_insert_balance d s c b ≡ ok (tt, b')
    → Moved d s c b b'
insert-Moved inflow s c b b' hs hc bs bc h = insert-in-Moved s c b b' hs hc bs bc h
insert-Moved outflow s c b b' hs hc bs bc h = insert-out-Moved s c b b' hs hc bs bc h
