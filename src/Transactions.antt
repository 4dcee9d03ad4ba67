-- ===== src/Transactions.antt =====
-- The lists of the cashbook: the filtered reads of src/cashbook/cashbook-transaction.repository.ts
-- and `listTransactions` of src/cashbook/cashbook-transaction.service.ts. The newest row stands
-- first in the table, which is the order of `created_at`.
use be_lumbung_mesari.Prelude.{
  ℕ, zero, suc, ◌-◌, ◌*◌, ltb, leb, ◌==◌, ℤ, Bool, true, false, not, ◌&&◌, is_key, Option, none,
  some, List, [], ◌∷◌, length, map, select, find, String,
}
use be_lumbung_mesari.Exec.{Result, ok, err, internal}
use be_lumbung_mesari.Cashbook.{CashbookTransaction, Direction, is_live}
use be_lumbung_mesari.Db.{Db, Income, Expense, IncomeCategory, ExpenseCategory}
use be_lumbung_mesari.Pagination.{
  PaginationResult, create_pagination_metadata, limit_rows, offset_rows,
}
pub mod Entries

pub data TransactionType : Type 0 where
  income expense : TransactionType

pub record TransactionFilters : Type 0 where
  pub date_from : Option ℕ
  pub date_to : Option ℕ
  pub type_of : Option TransactionType
  pub user_id : Option ℕ
  pub income_id : Option ℕ
  pub expense_id : Option ℕ
  pub limit : Option ℕ
  pub offset : Option ℕ

-- Neither deleted nor a reversal.
abbrev pub is_entry : CashbookTransaction → Bool
is_entry t = is_live t && not t.is_reversal

abbrev pub is_from : Option ℕ → CashbookTransaction → Bool
is_from none t = true
is_from (some d) t = leb d t.txn_date

abbrev pub is_to : Option ℕ → CashbookTransaction → Bool
is_to none t = true
is_to (some d) t = leb t.txn_date d

abbrev pub is_of_type : Option TransactionType → CashbookTransaction → Bool
is_of_type none t = true
is_of_type (some TransactionType.income) t = elim t.direction [
  | Direction.inflow ↦ true
  | Direction.outflow ↦ false
]
is_of_type (some TransactionType.expense) t = elim t.direction [
  | Direction.inflow ↦ false
  | Direction.outflow ↦ true
]

abbrev pub is_for : Option ℕ → Option ℕ → Bool
is_for none column = true
is_for (some id) column = is_key column id

unfoldable pub passes : TransactionFilters → CashbookTransaction → Bool
passes f t =
    is_entry t
    && (is_from f.date_from t
        && (is_to f.date_to t
            && (is_of_type f.type_of t
                && (is_for f.income_id t.income_id && is_for f.expense_id t.expense_id))))

-- `if (filters.limit)`: zero does not limit.
abbrev pub limited : Option ℕ → List CashbookTransaction → List CashbookTransaction
limited none ts = ts
limited (some zero) ts = ts
limited (some (suc n)) ts = limit_rows (suc n) ts

abbrev pub from_offset : Option ℕ → List CashbookTransaction → List CashbookTransaction
from_offset none ts = ts
from_offset (some n) ts = offset_rows n ts

-- The table has no column `user_id`: the database refuses a filter on it.
abbrev pub unless_user {ℓ} : {A : Type ℓ} → Option ℕ → A → Result A
unless_user none a = ok a
unless_user (some _) a = err internal

unfoldable pub get_transactions_with_filters :
    TransactionFilters → Db → Result (List CashbookTransaction)
unfolding passes
get_transactions_with_filters f s =
    unless_user f.user_id
      (limited f.limit (from_offset f.offset (select (passes f) s.book.transactions)))

unfoldable pub get_transaction_count : TransactionFilters → Db → Result ℕ
unfolding passes
get_transaction_count f s = unless_user f.user_id (length (select (passes f) s.book.transactions))

abbrev pub no_filters : TransactionFilters
no_filters = record {
  date_from = none;
  date_to = none;
  type_of = none;
  user_id = none;
  income_id = none;
  expense_id = none;
  limit = none;
  offset = none;
}

unfoldable pub get_recent_transactions : ℕ → Db → Result (List CashbookTransaction)
unfolding get_transactions_with_filters
get_recent_transactions limit =
    get_transactions_with_filters (record no_filters { limit = some limit })

-- The category of a row, by its income or else by its expense; the text is the code.
pub record Category : Type 0 where
  pub id : ℕ
  pub code : String

abbrev pub income_category : Option ℕ → Db → Option Category
income_category none s = none
income_category (some id) s = elim (find (λ (i : Income). i.id == id) s.incomes) [
  | none ↦ none
  | some i ↦
      elim (find (λ (c : IncomeCategory). c.id == i.income_category_id) s.income_categories) [
        | none ↦ none
        | some c ↦ some (record { id = c.id; code = c.code })
      ]
]

abbrev pub expense_category : Option ℕ → Db → Option Category
expense_category none s = none
expense_category (some id) s = elim (find (λ (e : Expense). e.id == id) s.expenses) [
  | none ↦ none
  | some e ↦
      elim (find (λ (c : ExpenseCategory). c.id == e.expense_category_id) s.expense_categories) [
        | none ↦ none
        | some c ↦ some (record { id = c.id; code = c.code })
      ]
]

abbrev pub coalesce {ℓ} : {A : Type ℓ} → Option A → Option A → Option A
coalesce none b = b
coalesce (some a) b = some a

pub record CashbookTransactionResponse : Type 0 where
  pub id : ℕ
  pub txn_date : ℕ
  pub type_of : TransactionType
  pub capital_amount : ℤ
  pub shu_amount : ℤ
  pub total_balance_after : ℤ
  pub category : Option Category

abbrev pub type_of_direction : Direction → TransactionType
type_of_direction Direction.inflow = TransactionType.income
type_of_direction Direction.outflow = TransactionType.expense

abbrev pub to_transaction_response : Db → CashbookTransaction → CashbookTransactionResponse
to_transaction_response s t = record {
  id = t.id;
  txn_date = t.txn_date;
  type_of = type_of_direction t.direction;
  capital_amount = t.capital_amount;
  shu_amount = t.shu_amount;
  total_balance_after = t.total_balance_after;
  category = coalesce (income_category t.income_id s) (expense_category t.expense_id s);
}

unfoldable pub get_transactions_with_category : ℕ → ℕ → Db → List CashbookTransactionResponse
get_transactions_with_category limit offset s =
    map (to_transaction_response s)
      (limit_rows limit (offset_rows offset (select is_entry s.book.transactions)))

-- The page and the count are two queries.
unfoldable pub list_transactions :
    ℕ → ℕ → Db → Result (PaginationResult CashbookTransactionResponse)
unfolding get_transactions_with_category get_transaction_count
list_transactions page limit s = elim (get_transaction_count no_filters s) [
  | err e ↦ err e
  | ok total ↦ ok (
      create_pagination_metadata page limit total
        (get_transactions_with_category limit ((page - 1) * limit) s))
]
