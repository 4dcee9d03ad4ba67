-- ===== src/Loans/Oldest.antt =====
-- Which installment the query for the oldest one without a penalty finds.
use be_lumbung_mesari.Prelude.{
  ℕ, ◌≤◌, ◌≡◌, refl, sym, subst, Bool, true, false, Option, none, some, List, [], ◌∷◌, All, All-map,
  select, ◌⊎◌, inl, inr, arith, Bool-cases,
}
use be_lumbung_mesari.Db.{Db, Installment}
use be_lumbung_mesari.Loans.Repository.{
  first_of, before, insert_sorted, in_order, is_unpenalized, find_oldest_unpenalized,
}

-- The row is in the table.
abbrev pub IsRow : Installment → List Installment → Type 0
IsRow x [] = ⊥
IsRow x (y ∷ ys) = (x ≡ y) ⊎ IsRow x ys

-- What the first row of an order is to the rows that were put in order.
abbrev Leads : Option Installment → List Installment → Type 0
Leads none xs = xs ≡ []
Leads (some x) xs = IsRow x xs × All (λ y. before x y ≡ true) xs

before_refl : (x : Installment) → before x x ≡ true
before_refl x = ground arith

before_total : (x y : Installment) → before x y ≡ false → before y x ≡ true
before_total x y h = ground (arith, h)

before_trans : (x y z : Installment) → before x y ≡ true → before y z ≡ true → before x z ≡ true
before_trans x y z h k = ground (arith, h, k)

-- The new row leads if it comes before the first.
inserted-Leads :
    (x : Installment) (zs xs : List Installment)
    → Leads (first_of zs) xs
    → Leads (first_of (insert_sorted x zs)) (x ∷ xs)
inserted-Leads x [] xs none_yet =
    (inl refl, (before_refl x, subst (All (λ y. before x y ≡ true)) (sym none_yet) tt))
inserted-Leads x (z ∷ zs) xs (there, least) = elim (Bool-cases (before x z)) [
  | inl t ↦
      let later =
        All-map (λ y. before z y ≡ true) (λ y. before x y ≡ true) (λ y h. before_trans x z y t h) xs
          least in
      rw t (inl refl, (before_refl x, later))
  | inr f ↦ rw f (inr there, (before_total x z f, least))
]

in_order-Leads : (xs : List Installment) → Leads (first_of (in_order xs)) xs
unfolding in_order
in_order-Leads [] = refl
in_order-Leads (x ∷ xs) = inserted-Leads x (in_order xs) xs (in_order-Leads xs)

-- The rows that a test selects, and those that it leaves.
selected :
    (test : Installment → Bool) (x : Installment) (xs : List Installment)
    → IsRow x (select test xs)
    → IsRow x xs × (test x ≡ true)
selected test x [] m = absurd m
selected test x (y ∷ ys) m = elim (Bool-cases (test y)) [
  | inr n ↦ let (there, t) = selected test x ys (rw n at m) in (inr there, t)
  | inl t ↦ elim (in_first (rw t at m)) [
    | inl same ↦ (inl same, subst (λ z. test z ≡ true) (sym same) t)
    | inr later ↦ let (there, p) = selected test x ys later in (inr there, p)
  ]
]
  where
    in_first : IsRow x (y ∷ select test ys) → (x ≡ y) ⊎ IsRow x (select test ys)
    in_first h = h

All-selected :
    (P : Installment → Type 0) (test : Installment → Bool) (xs : List Installment)
    → All P (select test xs)
    → All (λ x. test x ≡ true → P x) xs
All-selected P test [] v = tt
All-selected P test (x ∷ xs) v = elim (Bool-cases (test x)) [
  | inl t ↦
      let w : P x × All P (select test xs) = rw t at v in ((λ _. w.0), All-selected P test xs w.1)
  | inr n ↦ ((λ t. absurd (cc (n, t))), All-selected P test xs (rw n at v))
]

none_selected :
    (test : Installment → Bool) (xs : List Installment)
    → select test xs ≡ []
    → All (λ x. test x ≡ false) xs
none_selected test [] h = tt
none_selected test (x ∷ xs) h = elim (Bool-cases (test x)) [
  | inl t ↦ absurd (cc (rw t at h))
  | inr n ↦ (n, none_selected test xs (rw n at h))
]

-- The oldest of the installments of the loan that are overdue and have no penalty.
pub record IsOldest (loan_id : ℕ) (rows : List Installment) (target : Installment) : Type 0 where
  pub there : IsRow target rows
  pub unpenalized : is_unpenalized loan_id target ≡ true
  pub oldest :
      All
        (λ i. is_unpenalized loan_id i ≡ true → target.installment_number ≤ i.installment_number)
        rows

numbered :
    (loan_id : ℕ) (x y : Installment)
    → is_unpenalized loan_id x ≡ true
    → before x y ≡ true
    → is_unpenalized loan_id y ≡ true
    → x.installment_number ≤ y.installment_number
numbered loan_id x y h b k = ground (arith, h, b, k)

pub find_oldest_unpenalized-IsOldest :
    (loan_id : ℕ) (s : Db) (i : Installment)
    → find_oldest_unpenalized loan_id s ≡ some i
    → IsOldest loan_id s.installments i
unfolding find_oldest_unpenalized
find_oldest_unpenalized-IsOldest loan_id s i h =
    let test = is_unpenalized loan_id in
    let leads : Leads (some i) (select test s.installments) =
      subst (λ o. Leads o (select test s.installments)) h
        (in_order-Leads (select test s.installments)) in
    let (there, unpenalized) = selected test i s.installments leads.0 in
    record {
      there = there;
      unpenalized = unpenalized;
      oldest =
          All-map (λ x. test x ≡ true → before i x ≡ true)
            (λ x. test x ≡ true → i.installment_number ≤ x.installment_number)
            (λ x b k. numbered loan_id i x unpenalized (b k) k) s.installments
            (All-selected (λ x. before i x ≡ true) test s.installments leads.1);
    }

pub find_oldest_unpenalized-none :
    (loan_id : ℕ) (s : Db)
    → find_oldest_unpenalized loan_id s ≡ none
    → All (λ i. is_unpenalized loan_id i ≡ false) s.installments
unfolding find_oldest_unpenalized
find_oldest_unpenalized-none loan_id s h =
    let test = is_unpenalized loan_id in
    none_selected test s.installments (
      subst (λ o. Leads o (select test s.installments)) h
        (in_order-Leads (select test s.installments)))
