-- ===== src/Users/Approval.antt =====
-- What the approval of a user does on every branch, and what its transaction guards against.
use be_lumbung_mesari.Prelude.{
  ℕ, ◌+ℤ◌, ◌≡◌, ◌≢◌, refl, sym, ap, ◌∙◌, subst, Bool, true, false, some, find, find-update_where,
  update_where, arith, Option-cases, Bool-cases, inl, inr, if◌then◌else◌,
}
use be_lumbung_mesari.Exec.{
  commits, rolls_back, Result, ok, err, Error, email_failed, bad_request, not_found, Tx,
  Result-cases, >>-eq-ok,
}
use be_lumbung_mesari.Calendar.{Clock}
use be_lumbung_mesari.Cashbook.{Balances}
use be_lumbung_mesari.Cashbook.Ledger.{IsConsistent}
use be_lumbung_mesari.Db.{Db, User, UserStatus, PrincipalSavings, SavingsStatus}
use be_lumbung_mesari.Savings.Records.{set_principal_paid}
use be_lumbung_mesari.Savings.Service.{is_settled, settle_principal_savings}
use be_lumbung_mesari.Savings.Principal.{
  savings_of, IsPrincipalSettled, settle_principal-IsPrincipalSettled, IsPrincipalMarked-paid,
}
use be_lumbung_mesari.Users.Repository.{
  UserDbFormat, has_id, with_status, find_user_by_id, update_status,
}
use be_lumbung_mesari.Users.Service.{
  ApprovalResponse, approval_email, decide_user, is_waiting, approve_in_transaction,
  reject_in_transaction, approve_user,
}

-- The update of a status, when it goes through.
pub update_status-ok :
    (id : ℕ) (status : UserStatus) (s s' : Db)
    → update_status id status s ≡ ok (tt, s')
    → ((u : User) × (find (has_id id) s.users ≡ some u))
      × (s' ≡ record s { users = update_where (has_id id) (with_status status) s.users })
unfolding update_status
update_status-ok id status s s' h = elim (Option-cases (find (has_id id) s.users)) [
  | inl missing ↦ absurd (cc (rw (update_status, missing) at h))
  | inr (u, found) ↦ ground (arith, found)
]

-- What an approval has done: the user is active, and the principal savings, which were not paid,
-- are paid into the capital.
pub record IsApproved (o : Balances) (clock : Clock) (user_id admin_id : ℕ) (s s' : Db)
    : Type 0 where
  pub known : (u : User) × (find (has_id user_id) s.users ≡ some u)
  pub savings : PrincipalSavings
  pub found : savings_of user_id s ≡ some savings
  pub unpaid : is_settled savings.status ≡ false
  pub paid : savings_of user_id s' ≡ some (set_principal_paid clock.instant admin_id savings)
  pub users : s'.users ≡ update_where (has_id user_id) (with_status UserStatus.active) s.users
  pub capital : s'.book.balances.capital ≡ s.book.balances.capital +ℤ savings.amount
  pub shu : s'.book.balances.shu ≡ s.book.balances.shu
  pub consistent : IsConsistent o s'.book

module _ (o : Balances) (clock : Clock) (user_id admin_id : ℕ) (s : Db) where
  IsApproved-from :
      (s₁ s' : Db)
      → (u : User) × (find (has_id user_id) s.users ≡ some u)
      → s₁
        ≡ record s { users = update_where (has_id user_id) (with_status UserStatus.active) s.users }
      → IsPrincipalSettled o clock user_id admin_id s₁ s'
      → IsApproved o clock user_id admin_id s s'
  IsApproved-from s₁ s' known e f = record {
    known = known;
    savings = f.rows.savings;
    found = rw e at f.rows.found;
    unpaid = f.rows.unpaid;
    paid = IsPrincipalMarked-paid clock user_id admin_id s₁ s' f.rows;
    users = f.rows.users ∙ ap (λ (x : Db). x.users) e;
    capital = f.capital ∙ ap (λ (x : Db). x.book.balances.capital +ℤ f.rows.savings.amount) e;
    shu = f.shu ∙ ap (λ (x : Db). x.book.balances.shu) e;
    consistent = f.consistent;
  }

  -- The transaction of an approval that goes through over a ledger behind the balances makes the
  -- user active and settles the principal savings, which were not paid.
  pub approve_in_transaction-IsApproved :
      (s' : Db)
      → IsConsistent o s.book
      → approve_in_transaction clock user_id admin_id s ≡ ok (tt, s')
      → IsApproved o clock user_id admin_id s s'
  unfolding approve_in_transaction
  approve_in_transaction-IsApproved s' c h =
      let ((_, s₁), e₁, h₁) =
        >>-eq-ok (update_status user_id UserStatus.active)
          (settle_principal_savings clock user_id admin_id) s (tt, s') h in
      let (known, e) = update_status-ok user_id UserStatus.active s s₁ e₁ in
      let c₁ : IsConsistent o s₁.book = rw e c in
      IsApproved-from s₁ s' known e
        (settle_principal-IsPrincipalSettled o clock user_id admin_id s₁ s' c₁ h₁)

-- How a decision about a user ends: it is refused and nothing is written, or it is carried out and
-- the mail decides on the answer.
pub data Outcome (done : Db → Type 0) (response : ApprovalResponse) (mailed : Bool) (user_id : ℕ)
    (s : Db) (r : Result ApprovalResponse × Db) : Type 0 where
  refused : (e : Error) → r ≡ (err e, s) → Outcome done response mailed user_id s r
  carried :
      (user : UserDbFormat)
      → find_user_by_id user_id s ≡ some user
      → user.status ≡ UserStatus.waiting_deposit
      → done r.1
      → r.0 ≡ (if mailed then ok response else err email_failed)
      → Outcome done response mailed user_id s r

is_waiting-true : (st : UserStatus) → is_waiting st ≡ true → st ≡ UserStatus.waiting_deposit
is_waiting-true st h = ground arith

-- The frame of a decision, for whatever its transaction does.
decide_user-Outcome :
    (done : Db → Type 0) (mailed : Bool) (status : UserStatus) (user_id : ℕ) (body : Tx Db Unit)
    (s : Db)
    → ((s' : Db) → body s ≡ ok (tt, s') → done s')
    → Outcome done
        (record { status = status; user_id = user_id })
        mailed
        user_id
        s
        (decide_user mailed status user_id body s)
decide_user-Outcome done mailed status user_id body s does =
    elim (Option-cases (find_user_by_id user_id s)) [
      | inl missing ↦ refused not_found (rw missing refl)
      | inr (user, found) ↦ elim (Bool-cases (is_waiting user.status)) [
        | inr other ↦ refused bad_request (rw (found, other) refl)
        | inl waits ↦ elim (Result-cases (body s)) [
          | inr (e, failed) ↦ refused e (
              rw (found, waits) (rolls_back body (approval_email mailed status user_id) s e failed))
          | inl ((_, s'), went) ↦
              let answer = approval_email mailed status user_id tt s' in
              let run : decide_user mailed status user_id body s ≡ (answer, s') =
                rw (found, waits)
                  (commits body (approval_email mailed status user_id) s tt s' went) in
              carried user found (is_waiting-true user.status waits)
                (subst (λ x. done x) (sym (ap (λ r. r.1) run)) (does s' went)) (ap (λ r. r.0) run)
        ]
      ]
    ]

-- `approveUser` over a ledger behind the balances either answers with an error and writes nothing,
-- or it found the user waiting for the deposit and carried the approval out; then it answers with
-- an error exactly when the mail is not taken.
pub approve_user-Outcome :
    (o : Balances) (clock : Clock) (mailed : Bool) (user_id admin_id : ℕ) (s : Db)
    → IsConsistent o s.book
    → Outcome
        (IsApproved o clock user_id admin_id s)
        (record { status = UserStatus.active; user_id = user_id })
        mailed
        user_id
        s
        (approve_user clock mailed user_id admin_id s)
unfolding approve_user
approve_user-Outcome o clock mailed user_id admin_id s c =
    decide_user-Outcome (IsApproved o clock user_id admin_id s) mailed UserStatus.active user_id
      (approve_in_transaction clock user_id admin_id) s
      (λ s' h. approve_in_transaction-IsApproved o clock user_id admin_id s s' c h)

-- After an approval over a ledger behind the balances, no second approval of the user goes through,
-- even by an administrator who read the user as waiting before the first one.
pub approved_once :
    (o : Balances) (clock : Clock) (user_id admin_id : ℕ) (s s' : Db)
    → IsConsistent o s.book
    → approve_in_transaction clock user_id admin_id s ≡ ok (tt, s')
    → (later : Clock) (other_admin : ℕ) (after : Db)
    → approve_in_transaction later user_id other_admin s' ≢ ok (tt, after)
approved_once o clock user_id admin_id s s' c h later other_admin after h' =
    let f = approve_in_transaction-IsApproved o clock user_id admin_id s s' c h in
    let g =
      approve_in_transaction-IsApproved o later user_id other_admin s' after f.consistent h' in
    cc (f.paid, g.found, g.unpaid)

-- A rejection that read the user as waiting before an approval, over a ledger behind the balances,
-- still goes through after it: the user ends rejected while the principal savings stay paid.
pub rejected_after_approval :
    (o : Balances) (clock : Clock) (user_id admin_id : ℕ) (s s' : Db)
    → IsConsistent o s.book
    → approve_in_transaction clock user_id admin_id s ≡ ok (tt, s')
    → (after : Db) × (reject_in_transaction user_id s' ≡ ok (tt, after))
      × ((u : User) × (find (has_id user_id) after.users ≡ some u)
          × (u.status ≡ UserStatus.rejected))
      × ((p : PrincipalSavings) × (savings_of user_id after ≡ some p)
          × (p.status ≡ SavingsStatus.paid))
unfolding reject_in_transaction update_status
rejected_after_approval o clock user_id admin_id s s' c h =
    let f = approve_in_transaction-IsApproved o clock user_id admin_id s s' c h in
    let (u, known) = f.known in
    let active : find (has_id user_id) s'.users ≡ some (with_status UserStatus.active u) =
      rw f.users (
        find-update_where (has_id user_id) (with_status UserStatus.active) (λ x t. t) s.users u
          known) in
    let after = record s' {
      users = update_where (has_id user_id) (with_status UserStatus.rejected) s'.users;
    } in
    (
      after,
      rw (reject_in_transaction, update_status, active) refl,
      (
        with_status UserStatus.rejected u,
        find-update_where (has_id user_id) (with_status UserStatus.rejected) (λ x t. t) s'.users _
            active,
        refl,
      ),
      (_, f.paid, refl),
    )
