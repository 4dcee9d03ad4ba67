-- ===== src/Exec/Keeps.antt =====
-- What the steps of a transaction and the parts of a method keep, a rule for each way to build one.
use be_lumbung_mesari.Prelude.{◌≡◌, sym, subst, inl, inr, Bool, true, false, Option, none, some}
use be_lumbung_mesari.Exec.{
  Error, Result, ok, err, Tx, Exec, pure, throw, gets, or_throw, ◌>>=◌, ◌>>◌, throw_if, when,
  transaction, reject_if, and_read, with_row, with_result, Result-cases, transaction-keeps,
}

-- The state of a step that went through has the property.
abbrev pub After {ℓ} : {S A : Type ℓ} → (S → Type ℓ) → Result (A × S) → Type ℓ
After P (ok (a, s)) = P s
After P (err e) = Unit

-- The step leads from states with the property to states with the property, if it goes through.
pub record Preserves {ℓ} {S A : Type ℓ} (P : S → Type ℓ) (m : Tx S A) : Type ℓ where
  pub holds : (s : S) → P s → After P (m s)

-- The method leaves a state with the property, whether it returns or throws.
pub record Leaves {ℓ} {S A : Type ℓ} (P : S → Type ℓ) (m : Exec S A) : Type ℓ where
  pub holds : (s : S) → P s → P (m s).1

module _ {ℓ} {S A : Type ℓ} {P : S → Type ℓ} where
  pub ok-Preserves :
      {m : Tx S A} → Preserves P m → (s : S) (a : A) (s' : S) → P s → m s ≡ ok (a, s') → P s'
  ok-Preserves k s a s' h e = subst (After P) e (k.holds s h)

  pub from-Preserves :
      (m : Tx S A) → ((s : S) (a : A) (s' : S) → P s → m s ≡ ok (a, s') → P s') → Preserves P m
  from-Preserves m k = record {
    holds = λ s h. elim (Result-cases (m s)) [
      | inl ((a, s'), e) ↦ subst (After P) (sym e) (k s a s' h e)
      | inr (x, e) ↦ subst (After P) (sym e) tt
    ];
  }

  pub or_throw-Preserves : (o : Option A) (e : Error) → Preserves P (or_throw o e)
  or_throw-Preserves none e = record { holds = λ s h. tt }
  or_throw-Preserves (some a) e = record { holds = λ s h. h }

  pub gets-Preserves : (f : S → A) → Preserves P (gets f)
  gets-Preserves f = record { holds = λ s h. h }

  pub throw-Preserves : (e : Error) → Preserves P (throw {A = A} e)
  throw-Preserves e = record { holds = λ s h. tt }

  pub pure-Preserves : (a : A) → Preserves P (pure a)
  pure-Preserves a = record { holds = λ s h. h }

  pub transaction-Leaves : (m : Tx S A) → Preserves P m → Leaves P (transaction m)
  transaction-Leaves m k = record {
    holds = λ s h. transaction-keeps P m s (λ a s' e. ok-Preserves k s a s' h e) h;
  }

  pub reject_if-Leaves :
      (b : Bool) (e : Error) (m : Exec S A) → Leaves P m → Leaves P (reject_if b e m)
  reject_if-Leaves true e m k = record { holds = λ s h. h }
  reject_if-Leaves false e m k = k

  -- The same, before a rest that has read the state.
  pub reject_or_read-Leaves :
      (b : Bool) (e : Error) (m : S → Exec S A)
      → ((t : S) → Leaves P (m t))
      → Leaves P (λ s. reject_if b e (m s) s)
  reject_or_read-Leaves b e m k = record {
    holds = λ s h. (reject_if-Leaves b e (m s) (k s)).holds s h;
  }

module _ {ℓ} {S A B : Type ℓ} {P : S → Type ℓ} where
  pub bind-Preserves :
      (m : Tx S A) (f : A → Tx S B)
      → Preserves P m
      → ((a : A) → Preserves P (f a))
      → Preserves P (m >>= f)
  bind-Preserves m f k l = record { holds = λ s h. split (m s) (k.holds s h) }
    where
      split :
          (q : Result (A × S))
          → After P q
          → After P (elim q as (λ _. Result (B × S)) [ ok (a, s') ↦ f a s' | err e ↦ err e ])
      split (ok (a, s')) h = (l a).holds s' h
      split (err e) h = tt

  pub then-Preserves :
      (m : Tx S A) (n : Tx S B) → Preserves P m → Preserves P n → Preserves P (m >> n)
  then-Preserves m n k l = bind-Preserves m (λ _. n) k (λ _. l)

  pub and_read-Leaves : (m : Exec S A) (f : A → S → Result B) → Leaves P m → Leaves P (and_read m f)
  and_read-Leaves m f k = record { holds = λ s h. split (m s).0 (m s).1 (k.holds s h) }
    where
      split :
          (r : Result A) (s : S)
          → P s
          → P (elim r as (λ _. Result B × S) [ ok a ↦ (f a s, s) | err e ↦ (err e, s) ]).1
      split (ok a) s h = h
      split (err e) s h = h

  pub with_row-Leaves :
      (o : Option A) (e : Error) (m : A → Exec S B)
      → ((a : A) → Leaves P (m a))
      → Leaves P (with_row o e m)
  with_row-Leaves none e m k = record { holds = λ s h. h }
  with_row-Leaves (some a) e m k = k a

  pub with_result-Leaves :
      (r : Result A) (m : A → Exec S B) → ((a : A) → Leaves P (m a)) → Leaves P (with_result r m)
  with_result-Leaves (ok a) m k = k a
  with_result-Leaves (err e) m k = record { holds = λ s h. h }

  -- The same, for what is read at the start.
  pub read_row-Leaves :
      (f : S → Option A) (e : Error) (m : A → Exec S B)
      → ((a : A) → Leaves P (m a))
      → Leaves P (λ s. with_row (f s) e m s)
  read_row-Leaves f e m k = record { holds = λ s h. (with_row-Leaves (f s) e m k).holds s h }

  pub read_result-Leaves :
      (f : S → Result A) (m : A → Exec S B)
      → ((a : A) → Leaves P (m a))
      → Leaves P (λ s. with_result (f s) m s)
  read_result-Leaves f m k = record { holds = λ s h. (with_result-Leaves (f s) m k).holds s h }

module _ {S : Type 0} {P : S → Type 0} where
  pub throw_if-Preserves : (b : Bool) (e : Error) → Preserves P (throw_if b e)
  throw_if-Preserves true e = record { holds = λ s h. tt }
  throw_if-Preserves false e = record { holds = λ s h. h }

  pub when-Preserves : (b : Bool) (m : Tx S Unit) → Preserves P m → Preserves P (when b m)
  when-Preserves true m k = k
  when-Preserves false m k = record { holds = λ s h. h }

pub ruleset transaction_rules = (
  pure-Preserves, throw-Preserves, gets-Preserves, or_throw-Preserves, bind-Preserves,
  then-Preserves, throw_if-Preserves, when-Preserves,
)

pub ruleset method_rules = (
  transaction-Leaves, reject_if-Leaves, and_read-Leaves, with_row-Leaves, with_result-Leaves,
  read_row-Leaves, read_result-Leaves, reject_or_read-Leaves,
)
