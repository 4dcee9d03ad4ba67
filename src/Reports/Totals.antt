-- ===== src/Reports/Totals.antt =====
-- The totals of the report against the table of savings.
use be_lumbung_mesari.Prelude.{
  ℕ, ◌==◌, ℤ, pos, ◌+ℤ◌, +ℤ-zero, +ℤ_assoc, int_laws, ◌≡◌, refl, sym, ap, ◌∙◌, subst, Bool, true,
  false, List, [], ◌∷◌, select, find, All, All-update_where_to, All-update_where, All-append,
  fun_ext, arith, Bool-cases, Option-cases, inl, inr, if◌then◌else◌,
}
use be_lumbung_mesari.Db.{Db, User, MandatorySavings}
use be_lumbung_mesari.Pagination.{order_by, place, for_each}
use be_lumbung_mesari.Pagination.Complete.{process_pages-for_each, All-order_by}
use be_lumbung_mesari.Reports.{
  MemberSavingsData, batch_size, active_members, is_paid_in, paid_savings, is_of, blank,
  set_payment, add_member, add_saving, collect_members, collect_savings,
  generate_mandatory_savings_report, get_active_members_fullname,
  find_paid_mandatory_savings_by_year,
}

abbrev pub amount_for : ℕ → MandatorySavings → ℤ
amount_for id m = if m.user_id == id then m.amount else pos 0

-- What a user has paid, in a list of savings.
abbrev pub sum_for : ℕ → List MandatorySavings → ℤ
sum_for id [] = pos 0
sum_for id (m ∷ ms) = amount_for id m +ℤ sum_for id ms

zero_left : (a : ℤ) → pos 0 +ℤ a ≡ a
zero_left a = omega int_laws

swap : (a b c : ℤ) → a +ℤ (b +ℤ c) ≡ b +ℤ (a +ℤ c)
swap a b c = omega int_laws

-- Each row of the report totals what `paid` says of its user.
abbrev pub HasTotals : (ℕ → ℤ) → List MemberSavingsData → Type 0
HasTotals paid ds = All (λ (d : MemberSavingsData). d.total ≡ paid d.user_id) ds

-- The order of the rows does not matter to a sum.
sum-place :
    (before : MandatorySavings → MandatorySavings → Bool) (id : ℕ) (m : MandatorySavings)
    (ms : List MandatorySavings)
    → sum_for id (place before m ms) ≡ sum_for id (m ∷ ms)
sum-place before id m [] = refl
sum-place before id m (n ∷ ms) = elim (Bool-cases (before m n)) [
  | inl t ↦ rw t refl
  | inr f ↦ rw f (ap (λ x. amount_for id n +ℤ x) (sum-place before id m ms) ∙ swap _ _ _)
]

sum-order_by :
    (before : MandatorySavings → MandatorySavings → Bool) (id : ℕ) (ms : List MandatorySavings)
    → sum_for id (order_by before ms) ≡ sum_for id ms
sum-order_by before id [] = refl
sum-order_by before id (m ∷ ms) =
    sum-place before id m (order_by before ms)
    ∙ ap (λ x. amount_for id m +ℤ x) (sum-order_by before id ms)

same_user :
    (d : MemberSavingsData) (m : MandatorySavings)
    → is_of m.user_id d ≡ true
    → (m.user_id == d.user_id) ≡ true
same_user d m t = ground arith

other_user :
    (d : MemberSavingsData) (m : MandatorySavings)
    → is_of m.user_id d ≡ false
    → (m.user_id == d.user_id) ≡ false
other_user d m t = ground arith

-- A saving adds to the total of its user alone.
add_saving-HasTotals :
    (paid : ℕ → ℤ) (m : MandatorySavings) (ds : List MemberSavingsData)
    → HasTotals paid ds
    → HasTotals (λ id. paid id +ℤ amount_for id m) (add_saving m ds)
unfolding add_saving
add_saving-HasTotals paid m ds h =
    All-update_where_to _ _ (is_of m.user_id) (set_payment m)
      (λ d t e. let t' = same_user d m t in rw t' (ap (λ x. x +ℤ m.amount) e))
      (λ d f e. let f' = other_user d m f in rw f' (e ∙ sym (+ℤ-zero _))) ds h

savings-HasTotals :
    (ms : List MandatorySavings) (ds : List MemberSavingsData) (paid : ℕ → ℤ)
    → HasTotals paid ds
    → HasTotals (λ id. paid id +ℤ sum_for id ms) (for_each add_saving ms ds)
savings-HasTotals [] ds paid h = subst (λ f. HasTotals f ds) (fun_ext (λ id. sym (+ℤ-zero _))) h
savings-HasTotals (m ∷ ms) ds paid h =
    subst (λ f. HasTotals f (for_each add_saving (m ∷ ms) ds)) (fun_ext (λ id. +ℤ_assoc _ _ _))
      (savings-HasTotals ms (add_saving m ds) (λ id. paid id +ℤ amount_for id m)
        (add_saving-HasTotals paid m ds h))

-- Members start from nothing.
add_member-HasTotals :
    (u : User) (ds : List MemberSavingsData)
    → HasTotals (λ _. pos 0) ds
    → HasTotals (λ _. pos 0) (add_member u ds)
unfolding add_member
add_member-HasTotals u ds h = elim (Option-cases (find (is_of u.id) ds)) [
  | inl new ↦ rw (add_member, new) (All-append _ ds (blank u ∷ []) h (refl, tt))
  | inr (d, there) ↦ rw (add_member, there) (All-update_where _ _ (λ _. blank u) (λ x e. refl) ds h)
]

members-HasTotals :
    (us : List User) (ds : List MemberSavingsData)
    → HasTotals (λ _. pos 0) ds
    → HasTotals (λ _. pos 0) (for_each add_member us ds)
members-HasTotals [] ds h = h
members-HasTotals (u ∷ us) ds h =
    members-HasTotals us (add_member u ds) (add_member-HasTotals u ds h)

module _ (by_name : User → User → Bool) (in_order : MandatorySavings → MandatorySavings → Bool)
    (year : ℕ) (s : Db) where
  collect_members-HasTotals : HasTotals (λ _. pos 0) (collect_members by_name s)
  unfolding collect_members get_active_members_fullname
  collect_members-HasTotals =
      subst (λ ds. HasTotals (λ _. pos 0) ds)
        (sym (
          process_pages-for_each add_member batch_size (active_members by_name s) [] (omega arith)))
        (members-HasTotals (active_members by_name s) [] tt)

  -- What the loops over the pages collect for each member totals what the table says that the
  -- member has paid in the year.
  collect_savings-HasTotals :
      HasTotals
        (λ id. sum_for id (select (is_paid_in year s) s.mandatory_savings))
        (collect_savings by_name in_order year s)
  unfolding collect_savings find_paid_mandatory_savings_by_year
  collect_savings-HasTotals =
      let paid = paid_savings in_order year s in
      let members = collect_members by_name s in
      subst (λ ds. HasTotals (λ id. sum_for id (select (is_paid_in year s) s.mandatory_savings)) ds)
        (sym (process_pages-for_each add_saving batch_size paid members (omega arith)))
        (subst (λ f. HasTotals f (for_each add_saving paid members))
          (fun_ext (λ id.
            zero_left _
            ∙ sum-order_by in_order id (select (is_paid_in year s) s.mandatory_savings)))
          (savings-HasTotals paid members (λ _. pos 0) collect_members-HasTotals))

  -- In the report each member's total is what the table of savings says that the member has paid in
  -- the year, whatever the orders of the two queries and of the report are.
  pub report-HasTotals :
      (by_locale : MemberSavingsData → MemberSavingsData → Bool)
      → HasTotals
          (λ id. sum_for id (select (is_paid_in year s) s.mandatory_savings))
          (generate_mandatory_savings_report by_name in_order by_locale year s).members
  unfolding generate_mandatory_savings_report
  report-HasTotals by_locale =
      All-order_by _ by_locale (collect_savings by_name in_order year s) collect_savings-HasTotals
