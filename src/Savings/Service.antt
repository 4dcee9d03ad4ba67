-- ===== src/Savings/Service.antt =====
-- `MandatorySavingsService` (src/savings/savings.service.ts) and `UsersSavingsService`
-- (src/users-savings/users-savings.service.ts). `configured` is the amount of the configuration,
-- in ten-thousandths of a rupiah.
use be_lumbung_mesari.Prelude.{
  ℕ, zero, ◌*◌, ◌/◌, ◌%◌, ℤ, pos, negsuc, ◌-ℤ◌, ◌+◌, leb_ℤ, Bool, true, false, none, List, [], ◌∷◌,
  length, if◌then◌else◌,
}
use be_lumbung_mesari.Exec.{
  not_found, bad_request, Tx, Exec, gets, or_throw, throw_if, transaction, ◌>>=◌, ◌>>◌,
}
use be_lumbung_mesari.Calendar.{Clock, Date}
use be_lumbung_mesari.Cashbook.{IncomeDestination}
use be_lumbung_mesari.Db.{Db, SavingsStatus}
use be_lumbung_mesari.Incomes.{
  book_income, create_mandatory_savings_income, create_principal_savings_income,
}
use be_lumbung_mesari.Savings.Records.{
  get_active_member_ids, create_from_month, create_yearly_for_users, find_mandatory_savings,
  set_mandatory_paid, update_mandatory_savings, find_principal_savings, set_principal_paid,
  update_principal_savings, insert_principal_savings,
}

-- 500,000 rupiah if the configured amount is not positive.
abbrev pub mandatory_savings_amount : ℤ → ℤ
mandatory_savings_amount configured =
    if leb_ℤ configured (pos 0) then pos 5000000000 else configured

-- Nothing is written for no members.
abbrev pub create_year_for_members : List ℕ → ℤ → ℕ → Db → Db
create_year_for_members [] amount year s = s
create_year_for_members (u ∷ us) amount year s = create_yearly_for_users (u ∷ us) amount year s

abbrev pub create_for_members : List ℕ → ℤ → ℕ → ℕ → Db → Db
create_for_members [] amount year month s = s
create_for_members (u ∷ us) amount year month s = create_from_month (u ∷ us) amount year month s

unfoldable pub create_yearly_mandatory_savings : ℤ → Date → Db → Db
create_yearly_mandatory_savings configured today s =
    create_year_for_members (get_active_member_ids s) (mandatory_savings_amount configured)
      (today.month / 12) s

unfoldable pub generate_remaining_year_savings : ℤ → Date → Db → Db
generate_remaining_year_savings configured today s =
    create_for_members (get_active_member_ids s) (mandatory_savings_amount configured)
      (today.month / 12) (today.month % 12) s

abbrev pub is_settled : SavingsStatus → Bool
is_settled SavingsStatus.paid = true
is_settled _ = false

unfoldable pub settle_mandatory_in_transaction : Clock → ℕ → ℕ → Tx Db Unit
settle_mandatory_in_transaction clock id admin_id = do
  found ← gets (find_mandatory_savings id)
  m ← or_throw found not_found
  throw_if (is_settled m.status) bad_request
  update_mandatory_savings m.id (set_mandatory_paid clock.instant admin_id)
  book_income clock.instant m.amount IncomeDestination.capital
      (create_mandatory_savings_income m.id m.amount)

unfoldable pub settle_mandatory_savings : Clock → ℕ → ℕ → Exec Db Unit
unfolding settle_mandatory_in_transaction
settle_mandatory_savings clock id admin_id =
    transaction (settle_mandatory_in_transaction clock id admin_id)

unfoldable pub settle_principal_savings : Clock → ℕ → ℕ → Tx Db Unit
settle_principal_savings clock user_id admin_id = do
  found ← gets (find_principal_savings user_id)
  p ← or_throw found not_found
  throw_if (is_settled p.status) bad_request
  update_principal_savings p.id (set_principal_paid clock.instant admin_id)
  book_income clock.instant p.amount IncomeDestination.capital
      (create_principal_savings_income p.id p.amount)

-- Whole rupiah of the total for each active member, rounded down; the configured minimum if there
-- is none.
abbrev pub share_of : ℤ → ℤ → ℕ → ℤ
share_of minimum balance zero = minimum
share_of minimum (pos n) members = pos (n / (10000 * members) * 10000)
share_of minimum (negsuc n) members =
    pos 0 -ℤ pos ((n + 10000 * members) / (10000 * members) * 10000)

unfoldable pub create_principal_savings : ℤ → ℕ → Tx Db Unit
unfolding insert_principal_savings
create_principal_savings minimum user_id s =
    insert_principal_savings
      (record {
        id = 0;
        user_id = user_id;
        amount = share_of minimum s.book.balances.total (length (get_active_member_ids s));
        status = SavingsStatus.pending;
        processed_by = none;
        paid_at = none;
      })
      s
