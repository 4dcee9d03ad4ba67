-- ===== src/Auth/Members.antt =====
-- The life of members over whole runs: each step is the commit of one transaction, in any order, so
-- that a step may rest on a read made before other steps.
use be_lumbung_mesari.Prelude.{
  ℕ, ℤ, ◌≡◌, refl, sym, subst, ap, ◌∙◌, none, some, ◌==◌, ==_iff, Bool, true, false, ◌∷◌, All,
  All-map, All-update_where_to, Bool-cases, inl, inr, update_where, find-update_other,
  find-update_missed,
}
use be_lumbung_mesari.Exec.{ok, >>-eq-ok}
use be_lumbung_mesari.Calendar.{Clock}
use be_lumbung_mesari.Db.{Db, User, UserStatus, PrincipalSavings, SavingsStatus}
use be_lumbung_mesari.Savings.Records.{set_principal_paid}
use be_lumbung_mesari.Savings.Service.{settle_principal_savings}
use be_lumbung_mesari.Savings.Principal.{
  savings_of, settle_principal-IsPrincipalMarked, IsPrincipalMarked-paid,
}
use be_lumbung_mesari.Users.Repository.{
  UpdateUserEntity, has_id, set_user, with_status, update_status,
}
use be_lumbung_mesari.Users.Service.{
  CreatedUser, create_user, update, approve_in_transaction, reject_in_transaction,
}
use be_lumbung_mesari.Users.Approval.{update_status-ok}
use be_lumbung_mesari.Users.Updates.{update-IsUpdated}
use be_lumbung_mesari.Auth.Service.{verified, verify_in_transaction}
use be_lumbung_mesari.Auth.Verification.{verify_in_transaction-IsVerified}
use be_lumbung_mesari.Auth.Credentials.{create_user-ok}

-- The principal savings of a user are paid.
abbrev pub HasPaid : Db → ℕ → Type 0
HasPaid s id = (p : PrincipalSavings) × (savings_of id s ≡ some p) × (p.status ≡ SavingsStatus.paid)

-- A user who is active has paid. Those that are there from the start, as the seeds are, are exempt.
abbrev pub IsPaidUp : (ℕ → Bool) → Db → User → Type 0
IsPaidUp exempt s u = exempt u.id ≡ false → u.status ≡ UserStatus.active → HasPaid s u.id

abbrev pub IsSound : (ℕ → Bool) → Db → Type 0
IsSound exempt s = All (IsPaidUp exempt s) s.users

-- One commit: a registration, an update that sets no status, a verification, an approval, a
-- rejection, or anything that leaves the users and the principal savings alone.
pub data Step (s s' : Db) : Type 0 where
  registers :
      (c : CreatedUser) (u : User)
      → c.status ≡ UserStatus.pending
      → create_user c s ≡ ok (u, s')
      → Step s s'
  updates :
      (id : ℕ) (changes : UpdateUserEntity) (u : User)
      → changes.status ≡ none
      → update id changes s ≡ ok (u, s')
      → Step s s'
  verifies :
      (configured : ℤ) (id : ℕ) (u : User)
      → verify_in_transaction configured id s ≡ ok (u, s')
      → Step s s'
  approves :
      (clock : Clock) (id admin_id : ℕ)
      → approve_in_transaction clock id admin_id s ≡ ok (tt, s')
      → Step s s'
  rejects : (id : ℕ) → reject_in_transaction id s ≡ ok (tt, s') → Step s s'
  other : s'.users ≡ s.users → s'.principal_savings ≡ s.principal_savings → Step s s'

pub data Reach (s : Db) : Db → Type 0 where
  here : Reach s s
  next : {t u : Db} → Reach s t → Step t u → Reach s u

-- Users who have paid are carried over.
module _ (exempt : ℕ → Bool) (s s' : Db) (paid : (id : ℕ) → HasPaid s id → HasPaid s' id) where
  carried : (u : User) → IsPaidUp exempt s u → IsPaidUp exempt s' u
  carried u k n a = paid u.id (k n a)

  carried_users : s'.users ≡ s.users → IsSound exempt s → IsSound exempt s'
  carried_users e v =
      subst (λ us. All (IsPaidUp exempt s') us) (sym e)
        (All-map (IsPaidUp exempt s) (IsPaidUp exempt s') carried s.users v)

  -- An update of one user that leaves the user not active, or paid up.
  carried_update :
      (id : ℕ) (f : User → User)
      → ((u : User) → has_id id u ≡ true → IsPaidUp exempt s u → IsPaidUp exempt s' (f u))
      → s'.users ≡ update_where (has_id id) f s.users
      → IsSound exempt s
      → IsSound exempt s'
  carried_update id f keep e v =
      subst (λ us. All (IsPaidUp exempt s') us) (sym e)
        (All-update_where_to (IsPaidUp exempt s) (IsPaidUp exempt s') (has_id id) f keep
          (λ u t k. carried u k) s.users v)

-- The same principal savings.
same_savings :
    (s s' : Db)
    → s'.principal_savings ≡ s.principal_savings
    → (id : ℕ) → HasPaid s id
    → HasPaid s' id
same_savings s s' e id (p, found, paid) = (p, rw e found, paid)

-- One row of savings more, for a user who had none.
new_savings :
    (s s' : Db) (p : PrincipalSavings)
    → savings_of p.user_id s ≡ none
    → s'.principal_savings ≡ p ∷ s.principal_savings
    → (id : ℕ) → HasPaid s id
    → HasPaid s' id
new_savings s s' p nothing e id (q, found, paid) = elim (Bool-cases (p.user_id == id)) [
  | inl t ↦ let same = (==_iff p.user_id id).0 t in absurd (cc (same, nothing, found))
  | inr f ↦ (q, rw (e, f) found, paid)
]

-- One row of savings marked as paid.
marked_savings :
    (s s' : Db) (key now admin_id : ℕ)
    → s'.principal_savings
      ≡ update_where (λ p. p.id == key) (set_principal_paid now admin_id) s.principal_savings
    → (id : ℕ) → HasPaid s id
    → HasPaid s' id
marked_savings s s' key now admin_id e id (q, found, paid) = elim (Bool-cases (q.id == key)) [
  | inl t ↦ (
    set_principal_paid now admin_id q,
    rw e (
        find-update_other (λ p. p.user_id == id) (λ p. p.id == key)
          (set_principal_paid now admin_id) (λ x. refl) s.principal_savings q found t),
    refl,
  )
  | inr f ↦ (
    q,
    rw e (
        find-update_missed (λ p. p.user_id == id) (λ p. p.id == key)
          (set_principal_paid now admin_id) (λ x. refl) s.principal_savings q found f),
    paid,
  )
]

approval-IsSound :
    (exempt : ℕ → Bool) (clock : Clock) (id admin_id : ℕ) (s s' : Db)
    → approve_in_transaction clock id admin_id s ≡ ok (tt, s')
    → IsSound exempt s
    → IsSound exempt s'
unfolding approve_in_transaction
approval-IsSound exempt clock id admin_id s s' h v =
    let ((_, s₁), e₁, h₁) =
      >>-eq-ok (update_status id UserStatus.active) (settle_principal_savings clock id admin_id) s
        (tt, s') h in
    let (_, e) = update_status-ok id UserStatus.active s s₁ e₁ in
    let f = settle_principal-IsPrincipalMarked clock id admin_id s₁ s' h₁ in
    let kept : (k : ℕ) → HasPaid s k → HasPaid s' k = λ k p.
      marked_savings s₁ s' f.savings.id clock.instant admin_id f.marked k
        (same_savings s s₁ (ap (λ (x : Db). x.principal_savings) e) k p) in
    let now_paid : HasPaid s' id = (_, IsPrincipalMarked-paid clock id admin_id s₁ s' f, refl) in
    carried_update exempt s s' kept id (with_status UserStatus.active)
      (λ u t k n a. subst (λ j. HasPaid s' j) (sym ((==_iff u.id id).0 t)) now_paid)
      (f.users ∙ ap (λ (x : Db). x.users) e) v

verification-IsSound :
    (exempt : ℕ → Bool) (configured : ℤ) (id : ℕ) (u : User) (s s' : Db)
    → verify_in_transaction configured id s ≡ ok (u, s')
    → IsSound exempt s
    → IsSound exempt s'
verification-IsSound exempt configured id u s s' h v =
    let f = verify_in_transaction-IsVerified configured id s u s' h in
    carried_update exempt s s' (new_savings s s' f.savings (rw f.owner f.no_savings) f.rows) id
      (set_user verified) (λ w t k n a. absurd (cc a)) f.users v

-- A commit keeps every active member paid up.
Step-IsSound : (exempt : ℕ → Bool) {s s' : Db} → Step s s' → IsSound exempt s → IsSound exempt s'
unfolding reject_in_transaction
Step-IsSound exempt {s} {s'} (registers c u waits h) v =
    let (row, rest) = create_user-ok c s u s' h in
    let kept = same_savings s s' (ap (λ (x : Db). x.principal_savings) rest) in
    let status : u.status ≡ c.status = ap (λ (x : User). x.status) row in
    subst (λ us. All (IsPaidUp exempt s') us) (sym (ap (λ (x : Db). x.users) rest))
      (
        λ n a. absurd (cc (waits, status, a)),
        All-map (IsPaidUp exempt s) (IsPaidUp exempt s') (carried exempt s s' kept) s.users v,
      )
Step-IsSound exempt {s} {s'} (updates id changes u unset h) v =
    let f = update-IsUpdated id changes s u s' h in
    let kept = same_savings s s' (ap (λ (x : Db). x.principal_savings) f.rest) in
    carried_update exempt s s' kept id (set_user changes)
      (λ w t k n a. kept w.id (k n (rw unset at a))) (ap (λ (x : Db). x.users) f.rest) v
Step-IsSound exempt {s} {s'} (verifies configured id u h) v =
    verification-IsSound exempt configured id u s s' h v
Step-IsSound exempt {s} {s'} (approves clock id admin_id h) v =
    approval-IsSound exempt clock id admin_id s s' h v
Step-IsSound exempt {s} {s'} (rejects id h) v =
    let (_, e) = update_status-ok id UserStatus.rejected s s' h in
    carried_update exempt s s' (same_savings s s' (ap (λ (x : Db). x.principal_savings) e)) id
      (with_status UserStatus.rejected) (λ w t k n a. absurd (cc a)) (ap (λ (x : Db). x.users) e) v
Step-IsSound exempt {s} {s'} (other users savings) v =
    carried_users exempt s s' (same_savings s s' savings) users v

-- In every state that commits lead to from a state in which each active user, but for given ones,
-- has paid the principal savings, each active user but for those has paid the principal savings.
pub Reach-IsSound :
    (exempt : ℕ → Bool) {s s' : Db} → Reach s s' → IsSound exempt s → IsSound exempt s'
Reach-IsSound exempt here v = v
Reach-IsSound exempt (next r st) v = Step-IsSound exempt st (Reach-IsSound exempt r v)
