-- ===== src/Pagination.antt =====
-- Pages of a query (src/database/base.repository.ts, src/interface/pagination.ts), and the loops
-- that go through them.
use be_lumbung_mesari.Prelude.{
  ℕ, zero, suc, ◌+◌, ◌-◌, ◌*◌, ◌/◌, ltb, Bool, List, [], ◌∷◌, length, if◌then◌else◌,
}
pub mod Complete

module _ {ℓ} {A : Type ℓ} where
  -- `LIMIT n`
  abbrev pub limit_rows : ℕ → List A → List A
  limit_rows zero xs = []
  limit_rows (suc n) [] = []
  limit_rows (suc n) (x ∷ xs) = x ∷ limit_rows n xs

  -- `OFFSET n`
  abbrev pub offset_rows : ℕ → List A → List A
  offset_rows zero xs = xs
  offset_rows (suc n) [] = []
  offset_rows (suc n) (x ∷ xs) = offset_rows n xs

  -- A row in its place: after those that come before it or are equal to it.
  abbrev pub place : (A → A → Bool) → A → List A → List A
  place before x [] = x ∷ []
  place before x (y ∷ ys) =
      let rest = place before x ys in if before x y then x ∷ y ∷ ys else y ∷ rest

  -- `ORDER BY`: rows that are equal in the order keep the order of the table.
  abbrev pub order_by : (A → A → Bool) → List A → List A
  order_by before [] = []
  order_by before (x ∷ xs) = place before x (order_by before xs)

pub record PaginationResult (A : Type 0) : Type 0 where
  pub rows : List A
  pub page : ℕ
  pub limit : ℕ
  pub total_data : ℕ
  pub total_page : ℕ
  pub next : Bool
  pub prev : Bool

-- `Math.ceil(totalData / limit)`, for a limit that is not zero: the request's validation refuses
-- pages and limits below one.
unfoldable pub ceil_div : ℕ → ℕ → ℕ
ceil_div total limit = (total + (limit - 1)) / limit

-- `createPaginationMetadata`, with the rows of the page.
unfoldable pub create_pagination_metadata : {A : Type 0} → ℕ → ℕ → ℕ → List A → PaginationResult A
unfolding ceil_div
create_pagination_metadata page limit total_data rows = record {
  rows = rows;
  page = page;
  limit = limit;
  total_data = total_data;
  total_page = ceil_div total_data limit;
  next = ltb page (ceil_div total_data limit);
  prev = ltb 1 page;
}

-- A page of the rows that a query selects, in its order: `paginate`, and the lists like it.
unfoldable pub paginate : {A : Type 0} → ℕ → ℕ → List A → PaginationResult A
unfolding create_pagination_metadata
paginate page limit rows =
    create_pagination_metadata page limit (length rows)
      (limit_rows limit (offset_rows ((page - 1) * limit) rows))

-- `rows.forEach(body)`
abbrev pub for_each {ℓ} : {A S : Type ℓ} → (A → S → S) → List A → S → S
for_each body [] s = s
for_each body (x ∷ xs) s = for_each body xs (body x s)

-- `while (hasNext) { … page++ }`: the query of each page from `page` on, and the body for its rows.
unfoldable pub process_pages :
    {A S : Type 0} → ℕ → (ℕ → PaginationResult A) → (A → S → S) → ℕ → S → S
process_pages zero query body page s = s
process_pages (suc fuel) query body page s =
    let result = query page in
    let s' = for_each body result.rows s in
    let rest = process_pages fuel query body (page + 1) s' in if result.next then rest else s'
