-- ===== src/Program/Keys.antt =====
-- Loans under the primary key of their table, and how many of them pass a test after an UPDATE.
use be_lumbung_mesari.Prelude.{
  ℕ, ◌+◌, ◌≤◌, ◌<◌, ◌≡◌, refl, sym, ap, subst, Bool, true, false, some, List, [], ◌∷◌, ◌==◌, find,
  select, length, update_where, All, All-map, All-update_where, arith, Bool-cases, inl, inr,
}
use be_lumbung_mesari.Exec.{ok, Result-cases}
use be_lumbung_mesari.Db.{Db, Loan}
use be_lumbung_mesari.Loans.Repository.{check_max_loans, insert_loan}
use be_lumbung_mesari.Loans.Limits.{IsKeyed}

-- No two loans have the same key.
abbrev pub IsDistinct : List Loan → Type 0
IsDistinct [] = Unit
IsDistinct (l ∷ ls) = All (λ (k : Loan). (k.id == l.id) ≡ false) ls × IsDistinct ls

-- Keys were drawn, each for one loan.
abbrev pub IsIndexed : Db → Type 0
IsIndexed s = IsKeyed s × IsDistinct s.loans

abbrev pub count : (Loan → Bool) → List Loan → ℕ
count test ls = length (select test ls)

abbrev pub weight : Bool → ℕ
weight true = 1
weight false = 0

pub count-cons :
    (test : Loan → Bool) (l : Loan) (ls : List Loan)
    → count test (l ∷ ls) ≡ weight (test l) + count test ls
count-cons test l ls = elim (Bool-cases (test l)) [
  | inl t ↦ rw t (omega arith)
  | inr n ↦ rw n (omega arith)
]

module _ (id : ℕ) (f : Loan → Loan) where
  update_none :
      (ls : List Loan)
      → All (λ (k : Loan). (k.id == id) ≡ false) ls
      → update_where (λ k. k.id == id) f ls ≡ ls
  update_none [] v = refl
  update_none (l ∷ ls) v = rw v.0 (ap (λ ks. l ∷ ks) (update_none ls v.1))

  -- An UPDATE by key changes the count by what it changes of the one row.
  pub count-update :
      (test : Loan → Bool) (ls : List Loan) (x : Loan)
      → IsDistinct ls
      → find (λ (k : Loan). k.id == id) ls ≡ some x
      → count test (update_where (λ k. k.id == id) f ls) + weight (test x)
        ≡ count test ls + weight (test (f x))
  count-update test [] x v h = cc
  count-update test (l ∷ ls) x v h = elim (Bool-cases (l.id == id)) [
    | inl t ↦
        let same : l ≡ x = ground (arith, t) in
        let key : l.id ≡ id = ground (arith, t) in
        let others =
          update_none ls (subst (λ n. All (λ (k : Loan). (k.id == n) ≡ false) ls) key v.0) in
        let before = count-cons test x ls in
        let after = count-cons test (f x) ls in rw (t, others, same) (omega (arith, before, after))
    | inr n ↦
        let rest = count-update test ls x v.1 (ground (arith, n)) in
        let updated = update_where (λ (k : Loan). k.id == id) f ls in
        let before = count-cons test l ls in
        let after = count-cons test l updated in rw n (omega (arith, before, after, rest))
  ]

  module _ (keyed : (l : Loan) → (f l).id ≡ l.id) where
    IsDistinct-update :
        (ls : List Loan) → IsDistinct ls → IsDistinct (update_where (λ k. k.id == id) f ls)
    IsDistinct-update [] v = tt
    IsDistinct-update (l ∷ ls) v =
        let others =
          All-update_where (λ (k : Loan). (k.id == l.id) ≡ false) (λ (k : Loan). k.id == id) f
            (λ k n. rw (keyed k) n) ls v.0 in
        elim (Bool-cases (l.id == id)) [
          | inl t ↦ rw (t, keyed l) (others, IsDistinct-update ls v.1)
          | inr n ↦ rw n (others, IsDistinct-update ls v.1)
        ]

    pub IsIndexed-update :
        (s : Db)
        → IsIndexed s
        → IsIndexed (record s { loans = update_where (λ k. k.id == id) f s.loans })
    IsIndexed-update s v = (
      All-update_where (λ (k : Loan). k.id < s.next_id) (λ (k : Loan). k.id == id) f
          (λ k n. rw (keyed k) n) s.loans v.0,
      IsDistinct-update s.loans v.1,
    )

module _ (s s' : Db) where
  pub IsIndexed-later : s'.loans ≡ s.loans → s.next_id ≤ s'.next_id → IsIndexed s → IsIndexed s'
  IsIndexed-later same later v =
      let later_keys =
        All-map (λ (k : Loan). k.id < s.next_id) (λ (k : Loan). k.id < s'.next_id)
          (λ k n. omega (arith, later, n)) s.loans v.0 in
      (
        subst (All (λ (k : Loan). k.id < s'.next_id)) (sym same) later_keys,
        subst IsDistinct (sym same) v.1,
      )

-- An INSERT of a loan that went through.
pub insert_loan-ok :
    (row l : Loan) (s s' : Db)
    → insert_loan row s ≡ ok (l, s')
    → s' ≡ record s { loans = record row { id = s.next_id } ∷ s.loans; next_id = s.next_id + 1 }
unfolding insert_loan
insert_loan-ok row l s s' h =
    elim (Result-cases (check_max_loans (record row { id = s.next_id }) s)) [
      | inr (x, e) ↦ absurd (cc (rw (insert_loan, e) at h))
      | inl (u, e) ↦ cc (rw (insert_loan, e) at h)
    ]

pub IsIndexed-insert :
    (row l : Loan) (s s' : Db) → insert_loan row s ≡ ok (l, s') → IsIndexed s → IsIndexed s'
IsIndexed-insert row l s s' h v =
    let older =
      All-map (λ (k : Loan). k.id < s.next_id) (λ (k : Loan). k.id < s.next_id + 1)
        (λ k n. omega (arith, n)) s.loans v.0 in
    let new =
      All-map (λ (k : Loan). k.id < s.next_id) (λ (k : Loan). (k.id == s.next_id) ≡ false)
        (λ k n. ground (arith, n)) s.loans v.0 in
    subst IsIndexed (sym (insert_loan-ok row l s s' h)) ((omega arith, older), (new, v.1))
