-- ===== src/Witnesses/Savings.antt =====
-- Runs of the savings.
use be_lumbung_mesari.Prelude.{ℕ, pos, ◌+ℤ◌, ◌-ℤ◌, ◌≡◌, List, [], ◌∷◌, refl, arith}
use be_lumbung_mesari.Cashbook.{
  create_income_transaction, create_transaction, cashbook_insert_balance, write_balance,
}
use be_lumbung_mesari.Db.{Db}
use be_lumbung_mesari.Incomes.{book_income, create_categorised, create_mandatory_savings_income}
use be_lumbung_mesari.Savings.Records.{due_record, create_from_month, update_mandatory_savings}
use be_lumbung_mesari.Savings.Service.{settle_mandatory_in_transaction}
use be_lumbung_mesari.Savings.Settlement.{IsMandatorySettled, settle_mandatory-IsMandatorySettled}
use be_lumbung_mesari.Savings.Generation.{
  HasRecord, create_from_month_idempotent, create_from_month_complete,
}
use be_lumbung_mesari.Witnesses.Fixtures.{after, opening, db, clock, book-IsConsistent}

abbrev settled : Db
settled = after (settle_mandatory_in_transaction clock 31 1 db) db

settle_mandatory-IsMandatorySettled_example : IsMandatorySettled opening clock 31 1 db settled
unfolding settle_mandatory_in_transaction update_mandatory_savings book_income create_categorised
    create_mandatory_savings_income create_income_transaction create_transaction
    cashbook_insert_balance write_balance ◌+ℤ◌ ◌-ℤ◌
settle_mandatory-IsMandatorySettled_example =
    settle_mandatory-IsMandatorySettled opening clock 31 1 db settled book-IsConsistent refl

abbrev members : List ℕ
members = 3 ∷ 4 ∷ []

create_from_month_idempotent_example :
    create_from_month members (pos 500000) 2025 9 (create_from_month members (pos 500000) 2025 9 db)
    ≡ create_from_month members (pos 500000) 2025 9 db
create_from_month_idempotent_example = create_from_month_idempotent members (pos 500000) 2025 9 db

create_from_month_complete_example :
    HasRecord (create_from_month members (pos 500000) 2025 9 db) (due_record (pos 500000) 24311 4)
create_from_month_complete_example =
    create_from_month_complete members (pos 500000) 2025 9 db 4 2 refl (omega arith)
