-- ===== src/Savings/Generation.antt =====
-- The yearly records of mandatory savings: complete, and safe to create again.
use be_lumbung_mesari.Prelude.{
  ℕ, zero, suc, ◌+◌, ◌-◌, ◌*◌, ℤ, ◌≡◌, refl, subst, some, List, [], ◌∷◌, ◌++◌, All, find, ◌==◌,
  ==_refl, ==_iff, ◌<◌, arith, Option-cases, Bool-cases, inl, inr,
}
use be_lumbung_mesari.Db.{Db, MandatorySavings}
use be_lumbung_mesari.Savings.Records.{
  is_same_period, due_record, month_records, insert_or_ignore, insert_all_or_ignore, records_from,
  create_from_month,
}

-- There is a row of this user and month.
abbrev pub HasRecord : Db → MandatorySavings → Type 0
HasRecord s row = (x : MandatorySavings) × (find (is_same_period row) s.mandatory_savings ≡ some x)

insert-HasRecord : (row : MandatorySavings) (s : Db) → HasRecord (insert_or_ignore row s) row
unfolding insert_or_ignore
insert-HasRecord row s = elim (Option-cases (find (is_same_period row) s.mandatory_savings)) [
  | inl missing ↦
      (record row { id = s.next_id }, rw (insert_or_ignore, missing) (rw (==_refl, ==_refl) refl))
  | inr (x, found) ↦ (x, rw (insert_or_ignore, found) found)
]

HasRecord-cons :
    (row y : MandatorySavings) (s : Db)
    → HasRecord s row
    → (x : MandatorySavings) × (find (is_same_period row) (y ∷ s.mandatory_savings) ≡ some x)
HasRecord-cons row y s (x, found) = elim (Bool-cases (is_same_period row y)) [
  | inl t ↦ (y, rw t refl)
  | inr n ↦ (x, rw n found)
]

insert-keeps :
    (row other : MandatorySavings) (s : Db)
    → HasRecord s other
    → HasRecord (insert_or_ignore row s) other
unfolding insert_or_ignore
insert-keeps row other s h = elim (Option-cases (find (is_same_period row) s.mandatory_savings)) [
  | inl missing ↦ rw (insert_or_ignore, missing) (HasRecord-cons other _ s h)
  | inr (x, found) ↦ rw (insert_or_ignore, found) h
]

insert_rows_keeps :
    (rows : List MandatorySavings) (other : MandatorySavings) (s : Db)
    → HasRecord s other
    → HasRecord (insert_all_or_ignore rows s) other
unfolding insert_all_or_ignore
insert_rows_keeps [] other s h = h
insert_rows_keeps (row ∷ rows) other s h =
    insert_rows_keeps rows other (insert_or_ignore row s) (insert-keeps row other s h)

-- After the INSERT each of its rows has a record.
insert_rows_complete :
    (rows : List MandatorySavings) (s : Db) → All (HasRecord (insert_all_or_ignore rows s)) rows
unfolding insert_all_or_ignore
insert_rows_complete [] s = tt
insert_rows_complete (row ∷ rows) s = (
  insert_rows_keeps rows row (insert_or_ignore row s) (insert-HasRecord row s),
  insert_rows_complete rows (insert_or_ignore row s),
)

-- Rows that have a record are ignored.
insert_rows_idle :
    (rows : List MandatorySavings) (s : Db)
    → All (HasRecord s) rows
    → insert_all_or_ignore rows s ≡ s
unfolding insert_all_or_ignore insert_or_ignore
insert_rows_idle [] s h = refl
insert_rows_idle (row ∷ rows) s ((x, found), h) =
    let e : insert_or_ignore row s ≡ s = rw (insert_or_ignore, found) refl in
    rw e (insert_rows_idle rows s h)

-- Creating the records from a month to December again changes nothing: whoever has a record of a
-- month keeps it, paid or not.
pub create_from_month_idempotent :
    (user_ids : List ℕ) (amount : ℤ) (year month : ℕ) (s : Db)
    → create_from_month user_ids amount year month (create_from_month user_ids amount year month s)
      ≡ create_from_month user_ids amount year month s
unfolding create_from_month
create_from_month_idempotent user_ids amount year month s =
    insert_rows_idle (records_from user_ids amount (year * 12 + month) (12 - month)) _
      (insert_rows_complete (records_from user_ids amount (year * 12 + month) (12 - month)) s)

All-append :
    (P : MandatorySavings → Type 0) (xs ys : List MandatorySavings)
    → All P (xs ++ ys)
    → All P xs × All P ys
All-append P [] ys h = (tt, h)
All-append P (x ∷ xs) ys (p, h) = let q = All-append P xs ys h in ((p, q.0), q.1)

module _ (P : MandatorySavings → Type 0) (amount : ℤ) where
  All-month :
      (period u : ℕ) (ids : List ℕ)
      → All P (month_records amount period ids)
      → find (λ v. v == u) ids ≡ some u
      → P (due_record amount period u)
  unfolding month_records
  All-month period u [] h m = cc
  All-month period u (v ∷ vs) (p, h) m = elim (Bool-cases (v == u)) [
    | inl t ↦ subst (λ w. P (due_record amount period w)) ((==_iff v u).0 t) p
    | inr n ↦ All-month period u vs h (ground (arith, m, n))
  ]

  All-records :
      (u : ℕ) (ids : List ℕ) (rounds period k : ℕ)
      → All P (records_from ids amount period rounds)
      → find (λ v. v == u) ids ≡ some u
      → k < rounds
      → P (due_record amount (period + k) u)
  unfolding records_from
  All-records u ids zero period k h m b = absurd (omega (arith, b))
  All-records u ids (suc rounds) period zero h m b =
      let q = All-append P (month_records amount period ids) _ h in
      let e : period ≡ period + 0 = omega arith in rw (← e) (All-month period u ids q.0 m)
  All-records u ids (suc rounds) period (suc k) h m b =
      let q = All-append P (month_records amount period ids) _ h in
      let e : (period + 1) + k ≡ period + suc k = omega arith in
      rw (← e) (All-records u ids rounds (period + 1) k q.1 m (omega (arith, b)))

-- After the records from a month to December are created, each of the users has one of each of
-- these months.
pub create_from_month_complete :
    (user_ids : List ℕ) (amount : ℤ) (year month : ℕ) (s : Db) (u k : ℕ)
    → find (λ v. v == u) user_ids ≡ some u
    → k < 12 - month
    → HasRecord
        (create_from_month user_ids amount year month s)
        (due_record amount (year * 12 + month + k) u)
unfolding create_from_month
create_from_month_complete user_ids amount year month s u k m b =
    All-records (HasRecord (create_from_month user_ids amount year month s)) amount u user_ids
      (12 - month) (year * 12 + month) k
      (insert_rows_complete (records_from user_ids amount (year * 12 + month) (12 - month)) s) m b
