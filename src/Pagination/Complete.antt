-- ===== src/Pagination/Complete.antt =====
-- Going through the pages is going through the rows.
use native.Mathlib.Nat.{le-div_iff_mul-le}
use be_lumbung_mesari.Prelude.{
  ℕ, zero, suc, ◌+◌, ◌-◌, ◌*◌, ◌≤◌, ◌<◌, ◌≡◌, ◌↔◌, refl, sym, ap, ◌∙◌, Bool, ltb, ltb→lt, List, [],
  ◌∷◌, length, arith, All, Bool-cases, inl, inr,
}
use be_lumbung_mesari.Pagination.{
  limit_rows, offset_rows, place, order_by, PaginationResult, ceil_div, create_pagination_metadata,
  paginate, for_each, process_pages,
}

-- There is a next page exactly when rows are left after this one.
next_iff :
    (page limit total : ℕ) → 0 < limit → (page < ceil_div total limit) ↔ (page * limit < total)
unfolding ceil_div
next_iff page limit total h =
    let e = le-div_iff_mul-le {k = limit} {x = page + 1} {y = total + (limit - 1)} h in
    (
      λ a. let b = e.0 (omega (arith, a)) in omega (arith, b, h),
      λ a. let b = e.1 (omega (arith, a, h)) in omega (arith, b),
    )

module _ {A S : Type 0} (body : A → S → S) where
  for_each-split :
      (n : ℕ) (xs : List A) (s : S)
      → for_each body (offset_rows n xs) (for_each body (limit_rows n xs) s) ≡ for_each body xs s
  for_each-split zero xs s = refl
  for_each-split (suc n) [] s = refl
  for_each-split (suc n) (x ∷ xs) s = for_each-split n xs (body x s)

module _ {A : Type 0} where
  offset-all : (n : ℕ) (xs : List A) → length xs ≤ n → offset_rows n xs ≡ []
  offset-all zero [] h = refl
  offset-all zero (x ∷ xs) h = absurd (omega (arith, h))
  offset-all (suc n) [] h = refl
  offset-all (suc n) (x ∷ xs) h = offset-all n xs (omega (arith, h))

  offset-nil : (n : ℕ) → offset_rows {A = A} n [] ≡ []
  offset-nil zero = refl
  offset-nil (suc n) = refl

  offset-offset :
      (m n : ℕ) (xs : List A) → offset_rows n (offset_rows m xs) ≡ offset_rows (m + n) xs
  offset-offset zero n xs = ap (λ k. offset_rows k xs) (omega arith)
  offset-offset (suc m) n [] = offset-nil n ∙ sym (offset-nil (suc m + n))
  offset-offset (suc m) n (x ∷ xs) =
      let e : suc (m + n) ≡ suc m + n = omega arith in
      offset-offset m n xs ∙ ap (λ k. offset_rows k (x ∷ xs)) e

  length-offset : (n : ℕ) (xs : List A) → length (offset_rows n xs) ≡ length xs - n
  length-offset zero xs = omega arith
  length-offset (suc n) [] = omega arith
  length-offset (suc n) (x ∷ xs) = omega (arith, length-offset n xs)

module _ {A S : Type 0} (body : A → S → S) (limit : ℕ) (rows : List A) (positive : 0 < limit) where
  abbrev query : ℕ → PaginationResult A
  query page = paginate page limit rows

  abbrev left : ℕ → List A
  left k = offset_rows (k * limit) rows

  left-suc : (k : ℕ) → offset_rows limit (left k) ≡ left (k + 1)
  left-suc k = offset-offset (k * limit) limit rows ∙ ap (λ n. offset_rows n rows) (omega arith)

  process_from :
      (fuel k : ℕ) (s : S)
      → length (left k) < fuel
      → process_pages fuel query body (k + 1) s ≡ for_each body (left k) s
  unfolding process_pages paginate create_pagination_metadata
  process_from zero k s h = absurd (omega (arith, h))
  process_from (suc fuel) k s h =
      let total = length rows in
      let page : k + 1 - 1 ≡ k = omega arith in
      let size = length-offset (k * limit) rows in
      let split = for_each-split body limit (left k) s in
      let (to, from) = next_iff (k + 1) limit total positive in
      elim (Bool-cases (ltb (k + 1) (ceil_div total limit))) [
        | inl more ↦
            let more_rows = to (ltb→lt (k + 1) (ceil_div total limit) more) in
            rw (more, page)
              (process_from fuel (k + 1) (for_each body (limit_rows limit (left k)) s) (
                  omega (arith, size, h, positive, more_rows, length-offset ((k + 1) * limit) rows))
                ∙ ap (λ xs. for_each body xs (for_each body (limit_rows limit (left k)) s))
                    (sym (left-suc k))
                ∙ split)
        | inr last ↦
            let few : total ≤ (k + 1) * limit = grind (arith, from, last) in
            let none_left = offset-all limit (left k) (omega (arith, size, few)) in
            rw (last, page)
              (ap (λ xs. for_each body xs (for_each body (limit_rows limit (left k)) s))
                  (sym none_left)
                ∙ split)
      ]

-- With one round more than there are rows, and pages of at least one row, going through the pages
-- of a query is going through its rows: every row once, in their order.
pub process_pages-for_each :
    {A S : Type 0} (body : A → S → S) (limit : ℕ) (rows : List A) (s : S)
    → 0 < limit
    → process_pages (suc (length rows)) (λ page. paginate page limit rows) body 1 s
      ≡ for_each body rows s
process_pages-for_each body limit rows s h =
    let start' : offset_rows (0 * limit) rows ≡ rows =
      let e : 0 * limit ≡ 0 = omega arith in ap (λ n. offset_rows n rows) e in
    let start = ap length start' in
    process_from body limit rows h (suc (length rows)) 0 s (omega (arith, start))
    ∙ ap (λ xs. for_each body xs s) start'

-- What holds of all rows holds of them in any order.
module _ {A : Type 0} (P : A → Type 0) (before : A → A → Bool) where
  All-place : (x : A) (xs : List A) → P x → All P xs → All P (place before x xs)
  All-place x [] p v = (p, tt)
  All-place x (y ∷ ys) p v = elim (Bool-cases (before x y)) [
    | inl t ↦ rw t (p, v)
    | inr f ↦ rw f (v.0, All-place x ys p v.1)
  ]

  pub All-order_by : (xs : List A) → All P xs → All P (order_by before xs)
  All-order_by [] v = v
  All-order_by (x ∷ xs) v = All-place x (order_by before xs) v.0 (All-order_by xs v.1)
