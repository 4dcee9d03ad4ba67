-- ===== src/Exec.antt =====
-- Results of methods, and the two kinds of stateful code: a step inside a database transaction
-- (`Tx`, which has no state to give back when it throws) and a method (`Exec`, which has).
pub mod Keeps
use be_lumbung_mesari.Prelude.{
  ◌≡◌, refl, sym, ap, ◌∙◌, ◌⊎◌, inl, inr, Bool, true, false, Option, none, some,
}

-- What the database raises: the checks, guards and keys of src/database/migrations.
pub data Constraint : Type 0 where
  negative_balance insufficient_shu insufficient_capital amounts_not_positive : Constraint
  numeric_overflow duplicate_key too_many_loans : Constraint

-- What a method throws.
pub data Error : Type 0 where
  not_found bad_request forbidden unauthorized conflict missing_row : Error
  insufficient_funds invalid_expense_amount validation category_not_found : Error
  invalid_otp no_otp_found otp_already_verified otp_expired user_not_pending : Error
  email_failed internal : Error
  database : Constraint → Error

pub data Result {ℓ} (A : Type ℓ) : Type ℓ where
  ok : A → Result A
  err : Error → Result A

pub ok-injective {ℓ} : {A : Type ℓ} {a b : A} → ok a ≡ ok b → a ≡ b
ok-injective h = cc

pub Result-cases {ℓ} :
    {A : Type ℓ} (r : Result A) → ((a : A) × (r ≡ ok a)) ⊎ ((e : Error) × (r ≡ err e))
Result-cases (ok a) = inl (a, refl)
Result-cases (err e) = inr (e, refl)

-- A step of a transaction. A throw rolls the transaction back, so it carries no state.
abbrev pub Tx {ℓ} : Type ℓ → Type ℓ → Type ℓ
Tx S A = S → Result (A × S)

-- A method: what it changed outside a transaction stays changed when it throws.
abbrev pub Exec {ℓ} : Type ℓ → Type ℓ → Type ℓ
Exec S A = S → Result A × S

module _ {ℓ} {S A : Type ℓ} where
  abbrev pub pure : A → Tx S A
  pure a s = ok (a, s)

  abbrev pub throw : Error → Tx S A
  throw e s = err e

  abbrev pub gets : (S → A) → Tx S A
  gets f s = ok (f s, s)

  -- `if (!row) throw new …`
  abbrev pub or_throw : Option A → Error → Tx S A
  or_throw none e = throw e
  or_throw (some a) e = pure a

module _ {ℓ} {S A B : Type ℓ} where
  infixl 10 ◌>>=◌
  abbrev pub ◌>>=◌ : Tx S A → (A → Tx S B) → Tx S B
  ◌>>=◌ m f s = elim (m s) [ ok (a, s') ↦ f a s' | err e ↦ err e ]

  -- Inversion of a block that went through.
  pub >>=-eq-ok :
      (m : Tx S A) (f : A → Tx S B) (s : S) (r : B × S)
      → (m >>= f) s ≡ ok r
      → (p : A × S) × (m s ≡ ok p) × (f p.0 p.1 ≡ ok r)
  >>=-eq-ok m f s r h = invert (m s) h
    where
      invert :
          (q : Result (A × S))
          → (elim q [ ok (a, s') ↦ f a s' | err e ↦ err e ]) ≡ ok r
          → (p : A × S) × (q ≡ ok p) × (f p.0 p.1 ≡ ok r)
      invert (ok (a, s')) k = ((a, s'), refl, k)
      invert (err e) k = cc

module _ {ℓ} {S A B : Type ℓ} where
  infixl 10 ◌>>◌
  abbrev pub ◌>>◌ : Tx S A → Tx S B → Tx S B
  ◌>>◌ m k s = elim (m s) [ ok (a, s') ↦ k s' | err e ↦ err e ]

  pub >>-eq-ok :
      (m : Tx S A) (k : Tx S B) (s : S) (r : B × S)
      → (m >> k) s ≡ ok r
      → (p : A × S) × (m s ≡ ok p) × (k p.1 ≡ ok r)
  >>-eq-ok m k s r h = >>=-eq-ok m (λ _. k) s r h

module _ {ℓ} {S A B : Type ℓ} where
  -- A block from its steps.
  pub >>-ok :
      (m : Tx S A) (k : Tx S B) (s : S) (p : A × S) (r : Result (B × S))
      → m s ≡ ok p
      → k p.1 ≡ r
      → (m >> k) s ≡ r
  >>-ok m k s p r e h = rw (e, ◌>>◌) h

  pub >>=-ok :
      (m : Tx S A) (f : A → Tx S B) (s : S) (p : A × S) (r : Result (B × S))
      → m s ≡ ok p
      → f p.0 p.1 ≡ r
      → (m >>= f) s ≡ r
  >>=-ok m f s p r e h = rw (e, ◌>>=◌) h

module _ {S : Type 0} where
  abbrev pub modify : (S → S) → Tx S Unit
  modify f s = ok (tt, f s)

  -- `if (c) throw e`
  abbrev pub throw_if : Bool → Error → Tx S Unit
  throw_if true e s = err e
  throw_if false e s = ok (tt, s)

  -- `if (c) { … }`
  abbrev pub when : Bool → Tx S Unit → Tx S Unit
  when true m = m
  when false m = pure tt

module _ {ℓ} {S A : Type ℓ} where
  -- `knex.transaction(…)`: commit on success, roll back on a throw.
  abbrev pub transaction : Tx S A → Exec S A
  transaction m s = elim (m s) [ ok (a, s') ↦ (ok a, s') | err e ↦ (err e, s) ]

  -- `if (c) throw e`, before the rest of a method.
  abbrev pub reject_if : Bool → Error → Exec S A → Exec S A
  reject_if true e m s = (err e, s)
  reject_if false e m s = m s

module _ {ℓ} {S A B : Type ℓ} where
  -- What a method reads at its end, after the commit.
  abbrev pub and_read : Exec S A → (A → S → Result B) → Exec S B
  and_read m f s = let (r, s') = m s in elim r [ ok a ↦ (f a s', s') | err e ↦ (err e, s') ]

  -- `if (!row) throw e`, before the rest of a method.
  abbrev pub with_row : Option A → Error → (A → Exec S B) → Exec S B
  with_row none e k s = (err e, s)
  with_row (some a) e k s = k a s

module _ {ℓ} {S A B : Type ℓ} where
  -- What a read that may throw gives, before the rest of a method.
  abbrev pub with_result : Result A → (A → Exec S B) → Exec S B
  with_result (err e) k s = (err e, s)
  with_result (ok a) k s = k a s

module _ {ℓ} {S T A : Type ℓ} where
  -- A step on a part of the state.
  abbrev pub zoom : (S → T) → (S → T → S) → Tx T A → Tx S A
  zoom get put m s = elim (m (get s)) [ ok (a, t) ↦ ok (a, put s t) | err e ↦ err e ]

-- A transaction keeps what its steps keep: a throw leaves the state of before.
pub transaction-keeps {ℓ κ} :
    {S A : Type ℓ} (P : S → Type κ) (m : Tx S A) (s : S)
    → ((a : A) (s' : S) → m s ≡ ok (a, s') → P s')
    → P s
    → P (transaction m s).1
transaction-keeps {S} {A} P m s keep h = split (m s) keep
  where
    split :
        (q : Result (A × S))
        → ((a : A) (s' : S) → q ≡ ok (a, s') → P s')
        → P (elim q as (λ _. Result A × S) [ ok (a, s') ↦ (ok a, s') | err e ↦ (err e, s) ]).1
    split (ok (a, s')) k = k a s' refl
    split (err e) k = h

pub and_read-keeps {ℓ κ} :
    {S A B : Type ℓ} (P : S → Type κ) (m : Exec S A) (f : A → S → Result B) (s : S)
    → P (m s).1
    → P (and_read m f s).1
and_read-keeps {S} {A} {B} P m f s h = split (m s).0
  where
    split :
        (r : Result A)
        → P
            (elim r as (λ _. Result B × S) [
              | ok a ↦ (f a (m s).1, (m s).1)
              | err e ↦ (err e, (m s).1)
            ]).1
    split (ok a) = h
    split (err e) = h

pub reject_if-keeps {ℓ κ} :
    {S A : Type ℓ} (P : S → Type κ) (b : Bool) (e : Error) (m : Exec S A) (s : S)
    → P s
    → (b ≡ false → P (m s).1)
    → P (reject_if b e m s).1
reject_if-keeps P true e m s h k = h
reject_if-keeps P false e m s h k = k refl

pub with_row-keeps {ℓ κ} :
    {S A B : Type ℓ} (P : S → Type κ) (o : Option A) (e : Error) (m : A → Exec S B) (s : S)
    → P s
    → ((a : A) → o ≡ some a → P (m a s).1)
    → P (with_row o e m s).1
with_row-keeps P none e m s h k = h
with_row-keeps P (some a) e m s h k = k a refl

-- A method whose body is a transaction and whose answer is read at its end.
module _ {ℓ} {S A B : Type ℓ} (m : Tx S A) (f : A → S → Result B) (s : S) where
  pub commits : (a : A) (s' : S) → m s ≡ ok (a, s') → and_read (transaction m) f s ≡ (f a s', s')
  commits a s' h =
      ap (λ q. and_read (λ t. elim q [ ok (x, t') ↦ (ok x, t') | err e ↦ (err e, t) ]) f s) h

  pub rolls_back : (e : Error) → m s ≡ err e → and_read (transaction m) f s ≡ (err e, s)
  rolls_back e h =
      ap (λ q. and_read (λ t. elim q [ ok (x, t') ↦ (ok x, t') | err e ↦ (err e, t) ]) f s) h

  -- Inversion of a method that answered.
  pub answered :
      (b : B) (s' : S)
      → and_read (transaction m) f s ≡ (ok b, s')
      → (a : A) × (m s ≡ ok (a, s')) × (f a s' ≡ ok b)
  answered b s' h = elim (Result-cases (m s)) [
    | inr (e, failed) ↦ let no = sym (rolls_back e failed) ∙ h in absurd (cc no)
    | inl ((a, t), went) ↦
        let done = sym (commits a t went) ∙ h in
        let same : t ≡ s' = ap (λ r. r.1) done in
        (a, went ∙ ap (λ x. ok (a, x)) same, ap (λ x. f a x) (sym same) ∙ ap (λ r. r.0) done)
  ]
