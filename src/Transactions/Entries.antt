-- ===== src/Transactions/Entries.antt =====
-- What the list of the cashbook shows, over its two queries.
use be_lumbung_mesari.Prelude.{
  ℕ, zero, suc, ◌-◌, ◌*◌, ◌≡◌, refl, sym, ap, ◌∙◌, fun_ext, Bool, true, false, ◌&&◌, List, [], ◌∷◌,
  map, length, select,
}
use be_lumbung_mesari.Exec.{ok}
use be_lumbung_mesari.Cashbook.{CashbookTransaction}
use be_lumbung_mesari.Db.{Db}
use be_lumbung_mesari.Pagination.{limit_rows, offset_rows, create_pagination_metadata, paginate}
use be_lumbung_mesari.Transactions.{
  is_entry, passes, no_filters, to_transaction_response, get_transaction_count,
  get_transactions_with_category, list_transactions,
}

module _ {A B : Type 0} (f : A → B) where
  map-limit : (n : ℕ) (xs : List A) → map f (limit_rows n xs) ≡ limit_rows n (map f xs)
  map-limit zero xs = refl
  map-limit (suc n) [] = refl
  map-limit (suc n) (x ∷ xs) = ap (λ ys. f x ∷ ys) (map-limit n xs)

  map-offset : (n : ℕ) (xs : List A) → map f (offset_rows n xs) ≡ offset_rows n (map f xs)
  map-offset zero xs = refl
  map-offset (suc n) [] = refl
  map-offset (suc n) (x ∷ xs) = map-offset n xs

  length-map : (xs : List A) → length (map f xs) ≡ length xs
  length-map [] = refl
  length-map (x ∷ xs) = ap suc (length-map xs)

-- Without filters the count is over the entries.
no_filters-entries :
    (ts : List CashbookTransaction) → select (passes no_filters) ts ≡ select is_entry ts
unfolding passes
no_filters-entries ts = ap (λ p. select p ts) (fun_ext (λ t. and_true (is_entry t)))
  where
    and_true : (b : Bool) → (b && (true && (true && (true && (true && true))))) ≡ b
    and_true true = refl
    and_true false = refl

-- The list of transactions is a page of all entries of the cashbook that are neither deleted nor
-- reversals: its two queries, for the rows and for their number, filter alike.
pub list_transactions-paginate :
    (page limit : ℕ) (s : Db)
    → list_transactions page limit s
      ≡ ok (
          paginate page limit
            (map (to_transaction_response s) (select is_entry s.book.transactions)))
unfolding list_transactions get_transaction_count get_transactions_with_category passes paginate
list_transactions-paginate page limit s =
    let rows = select is_entry s.book.transactions in
    let f = to_transaction_response s in
    let skip = (page - 1) * limit in
    let count = ap length (no_filters-entries s.book.transactions) ∙ sym (length-map f rows) in
    let page_rows =
      map-limit f limit (offset_rows skip rows) ∙ ap (limit_rows limit) (map-offset f skip rows) in
    ap
      (λ n. ok (
        create_pagination_metadata page limit n (map f (limit_rows limit (offset_rows skip rows)))))
      count
    ∙ ap (λ xs. ok (create_pagination_metadata page limit (length (map f rows)) xs)) page_rows
