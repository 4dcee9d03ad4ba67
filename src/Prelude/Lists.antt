-- ===== src/Prelude/Lists.antt =====
-- Lists measured by native numbers, and the queries of a table.
use Prim.Native.Nat.{ℕ, suc, ◌+◌}
use mathlib.Core.Path.{◌≡◌, refl, ap, subst}
use mathlib.Core.List.{List, [], ◌∷◌, ◌++◌}
use mathlib.Core.Logic.{inl, inr}
use mathlib.Core.Option.{Option, none, some}
use mathlib.Core.Bool.{Bool, true, false, ◌&&◌}
use native.Mathlib.Omega.{arith}
use be_lumbung_mesari.Prelude.Tests.{if◌then◌else◌, Bool-cases}

module _ {ℓ} {A : Type ℓ} where
  abbrev pub length : List A → ℕ
  length [] = 0
  length (x ∷ xs) = suc (length xs)

  -- `SELECT … WHERE test LIMIT 1`
  abbrev pub find : (A → Bool) → List A → Option A
  find test [] = none
  find test (x ∷ xs) = let rest = find test xs in if test x then some x else rest

  -- `SELECT … WHERE test`
  abbrev pub select : (A → Bool) → List A → List A
  select test [] = []
  select test (x ∷ xs) = let rest = select test xs in if test x then x ∷ rest else rest

  -- `UPDATE … SET f WHERE test`
  abbrev pub update_where : (A → Bool) → (A → A) → List A → List A
  update_where test f [] = []
  update_where test f (x ∷ xs) = (if test x then f x else x) ∷ update_where test f xs

  -- The library's `all` does not unfold.
  abbrev pub every : (A → Bool) → List A → Bool
  every test [] = true
  every test (x ∷ xs) = test x && every test xs

  length-append : (xs ys : List A) → length (xs ++ ys) ≡ length xs + length ys
  length-append [] ys = omega arith
  length-append (x ∷ xs) ys = omega (arith, length-append xs ys)

  length-update_where :
      (test : A → Bool) (f : A → A) (xs : List A) → length (update_where test f xs) ≡ length xs
  length-update_where test f [] = refl
  length-update_where test f (x ∷ xs) = ap suc (length-update_where test f xs)

  -- What is found passes the test.
  pub find-test : (test : A → Bool) (xs : List A) (x : A) → find test xs ≡ some x → test x ≡ true
  find-test test [] x h = cc
  find-test test (y ∷ xs) x h = ground (arith, find-test test xs x)

  -- A row that is found is found again when an UPDATE leaves its key alone.
  pub find-update_where :
      (test : A → Bool) (f : A → A)
      → ((x : A) → test x ≡ true → test (f x) ≡ true)
      → (xs : List A) (x : A) → find test xs ≡ some x
      → find test (update_where test f xs) ≡ some (f x)
  find-update_where test f keep [] x h = cc
  find-update_where test f keep (y ∷ ys) x h = elim (Bool-cases (test y)) [
    | inl t ↦ rw (t, keep y t) (ground (arith, t))
    | inr n ↦ rw (n, n) (find-update_where test f keep ys x (ground (arith, n)))
  ]

  -- A row that is found and is updated, by an UPDATE that the search does not see.
  pub find-update_other :
      (test key : A → Bool) (f : A → A)
      → ((x : A) → test (f x) ≡ test x)
      → (xs : List A) (x : A) → find test xs ≡ some x
      → key x ≡ true
      → find test (update_where key f xs) ≡ some (f x)
  find-update_other test key f keep [] x h k = cc
  find-update_other test key f keep (y ∷ ys) x h k = elim (Bool-cases (test y)) [
    | inl t ↦
        let same : y ≡ x = ground (arith, t) in
        let t' : test x ≡ true = subst (λ z. test z ≡ true) same t in rw (same, k, keep x, t') refl
    | inr n ↦
        let rest = find-update_other test key f keep ys x (ground (arith, n)) k in
        elim (Bool-cases (key y)) [ inl c ↦ rw (c, keep y, n) rest | inr c ↦ rw (c, n) rest ]
  ]

  -- A row that is found and is not updated.
  pub find-update_missed :
      (test key : A → Bool) (f : A → A)
      → ((x : A) → test (f x) ≡ test x)
      → (xs : List A) (x : A) → find test xs ≡ some x
      → key x ≡ false
      → find test (update_where key f xs) ≡ some x
  find-update_missed test key f keep [] x h k = cc
  find-update_missed test key f keep (y ∷ ys) x h k = elim (Bool-cases (test y)) [
    | inl t ↦
        let same : y ≡ x = ground (arith, t) in
        let t' : test x ≡ true = subst (λ z. test z ≡ true) same t in rw (same, k, t') refl
    | inr n ↦
        let rest = find-update_missed test key f keep ys x (ground (arith, n)) k in
        elim (Bool-cases (key y)) [ inl c ↦ rw (c, keep y, n) rest | inr c ↦ rw (c, n) rest ]
  ]

-- A property of every row of a table.
abbrev pub All {ℓ κ} : {A : Type ℓ} → (A → Type κ) → List A → Type κ
All P [] = Unit
All P (x ∷ xs) = P x × All P xs

module _ {ℓ κ} {A : Type ℓ} (P : A → Type κ) where
  pub All-find : (test : A → Bool) (xs : List A) (x : A) → All P xs → find test xs ≡ some x → P x
  All-find test [] x v h = cc
  All-find test (y ∷ xs) x v h = elim (Bool-cases (test y)) [
    | inl t ↦ subst P (ground arith) v.0
    | inr f ↦ All-find test xs x v.1 (ground arith)
  ]

  pub All-select : (test : A → Bool) (xs : List A) → All P xs → All P (select test xs)
  All-select test [] v = v
  All-select test (x ∷ xs) v = elim (Bool-cases (test x)) [
    | inl t ↦ rw t (v.0, All-select test xs v.1)
    | inr f ↦ rw f (All-select test xs v.1)
  ]

  pub All-update_where :
      (test : A → Bool) (f : A → A)
      → ((x : A) → P x → P (f x))
      → (xs : List A) → All P xs
      → All P (update_where test f xs)
  All-update_where test f keep [] v = v
  All-update_where test f keep (x ∷ xs) v = elim (Bool-cases (test x)) [
    | inl t ↦ rw t (keep x v.0, All-update_where test f keep xs v.1)
    | inr u ↦ rw u (v.0, All-update_where test f keep xs v.1)
  ]

pub All-append {ℓ κ} :
    {A : Type ℓ} (P : A → Type κ) (xs ys : List A) → All P xs → All P ys → All P (xs ++ ys)
All-append P [] ys v w = w
All-append P (x ∷ xs) ys v w = (v.0, All-append P xs ys v.1 w)

-- An UPDATE that brings one property of the rows to another.
pub All-update_where_to {ℓ κ ι} :
    {A : Type ℓ} (P : A → Type κ) (Q : A → Type ι) (test : A → Bool) (f : A → A)
    → ((x : A) → test x ≡ true → P x → Q (f x))
    → ((x : A) → test x ≡ false → P x → Q x)
    → (xs : List A) → All P xs
    → All Q (update_where test f xs)
All-update_where_to P Q test f hit miss [] v = tt
All-update_where_to P Q test f hit miss (x ∷ xs) v = elim (Bool-cases (test x)) [
  | inl t ↦ rw t (hit x t v.0, All-update_where_to P Q test f hit miss xs v.1)
  | inr u ↦ rw u (miss x u v.0, All-update_where_to P Q test f hit miss xs v.1)
]

pub All-map {ℓ κ ι} :
    {A : Type ℓ} (P : A → Type κ) (Q : A → Type ι)
    → ((x : A) → P x → Q x)
    → (xs : List A) → All P xs
    → All Q xs
All-map P Q k [] v = tt
All-map P Q k (x ∷ xs) v = (k x v.0, All-map P Q k xs v.1)
