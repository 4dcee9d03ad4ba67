-- ===== src/Loans/Limits.antt =====
-- A member has at most three open loans.
use be_lumbung_mesari.Prelude.{
  ℕ, suc, ◌≤◌, ◌<◌, ◌≡◌, refl, ap, sym, subst, ==_iff, Bool, true, false, ◌&&◌, ◌==◌, leb, List, [],
  ◌∷◌, All, length, select, arith, Bool-cases, inl, inr,
}
use be_lumbung_mesari.Exec.{ok, ok-injective}
use be_lumbung_mesari.Db.{Db, Loan}
use be_lumbung_mesari.Loans.Repository.{is_open, is_other_open, check_max_loans, insert_loan}

abbrev pub is_open_of : ℕ → Loan → Bool
is_open_of user_id l = l.user_id == user_id && is_open l.status

-- How many open loans a member has.
abbrev pub open_loans : ℕ → List Loan → ℕ
open_loans user_id ls = length (select (is_open_of user_id) ls)

-- A key that the database draws is new.
abbrev pub IsKeyed : Db → Type 0
IsKeyed s = All (λ (l : Loan). l.id < s.next_id) s.loans

-- All loans are others to a new key.
pub others_of_new :
    (user_id key : ℕ) (ls : List Loan)
    → All (λ (l : Loan). l.id < key) ls
    → length (select (is_other_open user_id key) ls) ≡ open_loans user_id ls
others_of_new user_id key [] v = refl
others_of_new user_id key (l ∷ ls) v =
    let rest = others_of_new user_id key ls v.1 in
    let other : (l.id == key) ≡ false = ground (arith, v.0) in
    elim (Bool-cases (l.user_id == user_id)) [
      | inr n ↦ rw n rest
      | inl t ↦ elim (Bool-cases (is_open l.status)) [
        | inr n ↦ rw (t, n) rest
        | inl m ↦ rw (t, m, other) (ap suc rest)
      ]
    ]

inserted_loan :
    (row l : Loan) (s s' : Db)
    → insert_loan row s ≡ ok (l, s')
    → ((is_open row.status && leb 3 (length (select (is_other_open row.user_id s.next_id) s.loans)))
        ≡ false)
      × (s'.loans ≡ record row { id = s.next_id } ∷ s.loans)
unfolding insert_loan check_max_loans
inserted_loan row l s s' h =
    elim (Bool-cases (
      is_open row.status
      && leb 3 (length (select (is_other_open row.user_id s.next_id) s.loans)))) [
        | inl t ↦ absurd (cc (rw (insert_loan, check_max_loans, t) at h))
        | inr n ↦ (
          n,
          ap (λ (p : Loan × Db). p.1.loans)
              (sym (ok-injective (rw (insert_loan, check_max_loans, n) at h))),
        )
      ]

below_limit : (b : Bool) (n : ℕ) → (b && leb 3 n) ≡ false → b ≡ true → suc n ≤ 3
below_limit b n h t = ground arith

-- One more loan, of the member or not, open or not.
counted :
    (row : Loan) (user_id : ℕ) (ls : List Loan)
    → open_loans user_id ls ≤ 3
    → (row.user_id ≡ user_id → is_open row.status ≡ true → suc (open_loans user_id ls) ≤ 3)
    → open_loans user_id (row ∷ ls) ≤ 3
counted row user_id ls limit room = elim (Bool-cases (row.user_id == user_id)) [
  | inr n ↦ rw n limit
  | inl t ↦ elim (Bool-cases (is_open row.status)) [
    | inr n ↦ rw (t, n) limit
    | inl m ↦ rw (t, m) (room ((==_iff row.user_id user_id).0 t) m)
  ]
]

-- With keys that are new, an INSERT of a loan that goes through leaves every member who had at most
-- three open loans with at most three.
pub insert_loan-limit :
    (row l : Loan) (s s' : Db) (user_id : ℕ)
    → IsKeyed s
    → insert_loan row s ≡ ok (l, s')
    → open_loans user_id s.loans ≤ 3
    → open_loans user_id s'.loans ≤ 3
insert_loan-limit row l s s' user_id v h limit =
    let (checked, rows) = inserted_loan row l s s' h in
    rw rows (
      counted (record row { id = s.next_id }) user_id s.loans limit
        (λ same opened.
          subst (λ u. suc (open_loans u s.loans) ≤ 3) same
            (below_limit (is_open row.status) _
              (rw (others_of_new row.user_id s.next_id s.loans v) at checked) opened)))
