-- ===== src/Cashbook/Undoing.antt =====
-- What the updates of the balances do when an entry is deleted.
use be_lumbung_mesari.Prelude.{ℤ, pos, ◌+ℤ◌, ◌-ℤ◌, ◌≤ℤ◌, int_laws, ◌≡◌, ◌∙◌}
use be_lumbung_mesari.Exec.{ok, >>-eq-ok, ◌>>◌}
use be_lumbung_mesari.Cashbook.Table.{BalanceType, Book, balance_of, with_balance, write_balance}
use be_lumbung_mesari.Cashbook.Repository.{adjust_balance}
use be_lumbung_mesari.Cashbook.Service.{undo_balance, undo_balances}

-- One balance has lost `amount`, and is not below zero if it was not before.
pub record Undone (t : BalanceType) (amount : ℤ) (k k' : Book) : Type 0 where
  pub balances : k'.balances ≡ with_balance t (balance_of t k.balances -ℤ amount) k.balances
  pub rows : k'.transactions ≡ k.transactions
  pub nonneg : pos 0 ≤ℤ balance_of t k.balances → pos 0 ≤ℤ balance_of t k'.balances

undo_balance-Undone :
    (t : BalanceType) (amount : ℤ) (k k' : Book)
    → undo_balance t amount k ≡ ok (tt, k')
    → Undone t amount k k'
unfolding adjust_balance write_balance
undo_balance-Undone BalanceType.shu amount k k' h = grind int_laws
undo_balance-Undone BalanceType.capital amount k k' h = grind int_laws
undo_balance-Undone BalanceType.total amount k k' h = grind int_laws

-- Both funds and the total have lost the net of an entry.
pub record AllUndone (s c : ℤ) (k k' : Book) : Type 0 where
  pub shu : k'.balances.shu ≡ k.balances.shu -ℤ s
  pub capital : k'.balances.capital ≡ k.balances.capital -ℤ c
  pub total : k'.balances.total ≡ k.balances.total -ℤ (s +ℤ c)
  pub rows : k'.transactions ≡ k.transactions
  pub shu_nonneg : pos 0 ≤ℤ k.balances.shu → pos 0 ≤ℤ k'.balances.shu
  pub capital_nonneg : pos 0 ≤ℤ k.balances.capital → pos 0 ≤ℤ k'.balances.capital

joined :
    (s c : ℤ) (k k₁ k₂ k₃ : Book)
    → Undone BalanceType.shu s k k₁
    → Undone BalanceType.capital c k₁ k₂
    → Undone BalanceType.total (s +ℤ c) k₂ k₃
    → AllUndone s c k k₃
joined s c k k₁ k₂ k₃ u₁ u₂ u₃ = record {
  shu = rw (u₃.balances, u₂.balances, u₁.balances);
  capital = rw (u₃.balances, u₂.balances, u₁.balances);
  total = rw (u₃.balances, u₂.balances, u₁.balances);
  rows = u₃.rows ∙ u₂.rows ∙ u₁.rows;
  shu_nonneg = λ h. rw (u₃.balances, u₂.balances) (u₁.nonneg h);
  capital_nonneg = λ h. rw u₃.balances (u₂.nonneg (rw u₁.balances h));
}

pub undo_balances-AllUndone :
    (s c : ℤ) (k k' : Book) → undo_balances s c k ≡ ok (tt, k') → AllUndone s c k k'
unfolding undo_balances
undo_balances-AllUndone s c k k' h =
    let ((_, k₂), e₂, h₂) =
      >>-eq-ok (undo_balance BalanceType.shu s >> undo_balance BalanceType.capital c)
        (undo_balance BalanceType.total (s +ℤ c)) k (tt, k') h in
    let ((_, k₁), e₁, h₁) =
      >>-eq-ok (undo_balance BalanceType.shu s) (undo_balance BalanceType.capital c) k (tt, k₂)
        e₂ in
    joined s c k k₁ k₂ k' (undo_balance-Undone BalanceType.shu s k k₁ e₁)
      (undo_balance-Undone BalanceType.capital c k₁ k₂ h₁)
      (undo_balance-Undone BalanceType.total (s +ℤ c) k₂ k' h₂)
