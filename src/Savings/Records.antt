-- ===== src/Savings/Records.antt =====
-- The queries of src/savings/mandatory-savings.repository.ts and
-- src/savings/principal-savings.repository.ts that change their tables, with the unique keys.
use be_lumbung_mesari.Prelude.{
  ℕ, suc, zero, ◌+◌, ◌-◌, ◌*◌, ℤ, Bool, true, false, ◌&&◌, ◌==◌, Option, none, some, List, [], ◌∷◌,
  ◌++◌, map, select, find, update_where,
}
use be_lumbung_mesari.Exec.{ok, err, database, duplicate_key, missing_row, Tx}
use be_lumbung_mesari.Db.{
  Db, User, UserStatus, UserRole, MandatorySavings, PrincipalSavings, SavingsStatus,
}

abbrev pub is_active_member : User → Bool
is_active_member u = elim u.status [
  | UserStatus.active ↦ elim u.role_id [ UserRole.member ↦ true | _ ↦ false ]
  | _ ↦ false
]

abbrev pub get_active_member_ids : Db → List ℕ
get_active_member_ids s = map (λ (u : User). u.id) (select is_active_member s.users)

abbrev pub is_same_period : MandatorySavings → MandatorySavings → Bool
is_same_period a b = a.user_id == b.user_id && a.period == b.period

-- One row of INSERT … ON CONFLICT (user_id, period_date) DO NOTHING.
unfoldable pub insert_or_ignore : MandatorySavings → Db → Db
insert_or_ignore row s = elim (find (is_same_period row) s.mandatory_savings) [
  | some _ ↦ s
  | none ↦ record s {
    mandatory_savings = record row { id = s.next_id } ∷ s.mandatory_savings;
    next_id = s.next_id + 1;
  }
]

unfoldable pub insert_all_or_ignore : List MandatorySavings → Db → Db
unfolding insert_or_ignore
insert_all_or_ignore [] s = s
insert_all_or_ignore (row ∷ rows) s = insert_all_or_ignore rows (insert_or_ignore row s)

abbrev pub due_record : ℤ → ℕ → ℕ → MandatorySavings
due_record amount period user_id = record {
  id = 0;
  user_id = user_id;
  period = period;
  amount = amount;
  status = SavingsStatus.due;
  processed_by = none;
  paid_at = none;
}

-- The inner loop, over the users of a month.
unfoldable pub month_records : ℤ → ℕ → List ℕ → List MandatorySavings
month_records amount period [] = []
month_records amount period (u ∷ us) = due_record amount period u ∷ month_records amount period us

-- The outer loop: `rounds` months from `period`.
unfoldable pub records_from : List ℕ → ℤ → ℕ → ℕ → List MandatorySavings
unfolding month_records
records_from user_ids amount period zero = []
records_from user_ids amount period (suc rounds) =
    month_records amount period user_ids ++ records_from user_ids amount (period + 1) rounds

-- `generateRemainingYearSavings` of the repository: from `start_month` to December.
unfoldable pub create_from_month : List ℕ → ℤ → ℕ → ℕ → Db → Db
unfolding records_from insert_all_or_ignore
create_from_month user_ids amount year start_month =
    insert_all_or_ignore (records_from user_ids amount (year * 12 + start_month) (12 - start_month))

-- `createYearlyMandatorySavingsForUsers`: all twelve months of the year.
unfoldable pub create_yearly_for_users : List ℕ → ℤ → ℕ → Db → Db
unfolding records_from insert_all_or_ignore
create_yearly_for_users user_ids amount year s =
    insert_all_or_ignore (records_from user_ids amount (year * 12) 12) s

abbrev pub find_mandatory_savings : ℕ → Db → Option MandatorySavings
find_mandatory_savings id s = find (λ m. m.id == id) s.mandatory_savings

abbrev pub set_mandatory_paid : ℕ → ℕ → MandatorySavings → MandatorySavings
set_mandatory_paid now admin m = record m {
  status = SavingsStatus.paid;
  paid_at = some now;
  processed_by = some admin;
}

unfoldable pub update_mandatory_savings : ℕ → (MandatorySavings → MandatorySavings) → Tx Db Unit
update_mandatory_savings id f s = elim (find_mandatory_savings id s) [
  | none ↦ err missing_row
  | some _ ↦
      ok (tt, record s { mandatory_savings = update_where (λ m. m.id == id) f s.mandatory_savings })
]

-- The join with the user, who must be there.
abbrev pub find_principal_savings : ℕ → Db → Option PrincipalSavings
find_principal_savings user_id s = elim (find (λ (u : User). u.id == user_id) s.users) [
  | none ↦ none
  | some _ ↦ find (λ p. p.user_id == user_id) s.principal_savings
]

abbrev pub set_principal_paid : ℕ → ℕ → PrincipalSavings → PrincipalSavings
set_principal_paid now admin p = record p {
  status = SavingsStatus.paid;
  processed_by = some admin;
  paid_at = some now;
}

unfoldable pub update_principal_savings : ℕ → (PrincipalSavings → PrincipalSavings) → Tx Db Unit
update_principal_savings id f s = elim (find (λ p. p.id == id) s.principal_savings) [
  | none ↦ err missing_row
  | some _ ↦
      ok (tt, record s { principal_savings = update_where (λ p. p.id == id) f s.principal_savings })
]

-- The INSERT of `createPrincipalSavings`: a user has one row.
unfoldable pub insert_principal_savings : PrincipalSavings → Tx Db Unit
insert_principal_savings row s = elim (find (λ p. p.user_id == row.user_id) s.principal_savings) [
  | some _ ↦ err (database duplicate_key)
  | none ↦ ok (
    tt,
    record s {
      principal_savings = record row { id = s.next_id } ∷ s.principal_savings;
      next_id = s.next_id + 1;
    },
  )
]
