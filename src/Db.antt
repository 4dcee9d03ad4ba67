-- ===== src/Db.antt =====
-- The database: its tables, and a step on the part of them that the cashbook keeps.
mod Tables
pub use Tables.*
use be_lumbung_mesari.Prelude.{◌≡◌, arith}
use be_lumbung_mesari.Exec.{Tx, Result, ok, err, zoom}
use be_lumbung_mesari.Cashbook.{Book}

-- A step on the cashbook's tables.
abbrev pub in_book : {A : Type 0} → Tx Book A → Tx Db A
in_book = zoom (λ s. s.book) (λ s k. record s { book = k })

-- Inversion of a step on the cashbook's tables.
pub in_book-eq-ok :
    {A : Type 0} (m : Tx Book A) (s : Db) (a : A) (s' : Db)
    → in_book m s ≡ ok (a, s')
    → (m s.book ≡ ok (a, s'.book)) × (s' ≡ record s { book = s'.book })
in_book-eq-ok {A} m s a s' h = invert (m s.book) h
  where
    invert :
        (q : Result (A × Book))
        → ◌≡◌ {A = Result (A × Db)}
            (elim q [ ok (x, t) ↦ ok (x, record s { book = t }) | err e ↦ err e ])
            (ok (a, s'))
        → (q ≡ ok (a, s'.book)) × (s' ≡ record s { book = s'.book })
    invert (ok (x, t)) k = ground arith
    invert (err e) k = cc
