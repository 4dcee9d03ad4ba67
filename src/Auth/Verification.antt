-- ===== src/Auth/Verification.antt =====
-- What verifying a one-time password does, and what it does not look at.
use be_lumbung_mesari.Prelude.{
  ℕ, ℤ, ◌+◌, ◌∷◌, ◌≡◌, ◌≢◌, refl, sym, subst, ap, ◌∙◌, false, none, some, Option, String, str_eq,
  find, update_where, ==_refl, Option-cases, Bool-cases, inl, inr, ◌⊎◌,
}
use be_lumbung_mesari.Exec.{
  Result, ok, ok-injective, ◌>>◌, err, Error, Result-cases, >>=-eq-ok, >>-eq-ok, Tx, Exec,
  transaction, and_read, commits, not_found, rolls_back, pure,
}
use be_lumbung_mesari.Db.{Db, User, PrincipalSavings, SavingsStatus}
use be_lumbung_mesari.Savings.Records.{insert_principal_savings}
use be_lumbung_mesari.Savings.Service.{create_principal_savings}
use be_lumbung_mesari.Savings.Principal.{savings_of}
use be_lumbung_mesari.Users.Repository.{UserDbFormat, selected, has_id, set_user, find_user_by_id}
use be_lumbung_mesari.Users.Service.{update, find_by_id_include_otp}
use be_lumbung_mesari.Users.Updates.{IsUpdated, update-IsUpdated}
use be_lumbung_mesari.Auth.Otp.{is_valid_otp_format}
use be_lumbung_mesari.Auth.Tokens.{Libraries, Secrets, is_pending_user}
use be_lumbung_mesari.Auth.Service.{
  Call, session, check_otp, non_empty, verified, verify_in_transaction, verify_otp,
}

-- The read of a user who is there.
pub read_known :
    (user_id : ℕ) (s : Db) (u : User)
    → find (has_id user_id) s.users ≡ some u
    → find_by_id_include_otp user_id s ≡ ok (selected u)
unfolding find_by_id_include_otp find_user_by_id
read_known user_id s u known = rw (find_by_id_include_otp, find_user_by_id, known) refl

-- What a call answers and leaves, up to the tokens in the answer.
abbrev pub seen {ℓ} : {A : Type ℓ} → Result A × Db → Option Error × Db
seen (ok _, s) = (none, s)
seen (err e, s) = (some e, s)

-- The answer of a transaction is seen alike, whatever is made of its result.
seen-and_read :
    {A B : Type 0} (m : Tx Db A) (f g : A → Db → B) (s : Db)
    → seen (and_read (transaction m) (λ a t. ok (f a t)) s)
      ≡ seen (and_read (transaction m) (λ a t. ok (g a t)) s)
seen-and_read m f g s = elim (Result-cases (m s)) [
  | inl ((a, s'), went) ↦ rw (commits m _ s a s' went, commits m _ s a s' went) refl
  | inr (e, failed) ↦ rw (rolls_back m _ s e failed, rolls_back m _ s e failed) refl
]

-- A user that is read without an expiry is checked alike at any time.
seen-check_otp :
    {X : Type 0} (now later : ℕ) (code : String) (user : UserDbFormat) (rest rest' : Exec Db X)
    (s : Db)
    → user.otp_expires_at ≡ none
    → seen (rest s) ≡ seen (rest' s)
    → seen (check_otp now code user rest s) ≡ seen (check_otp later code user rest' s)
seen-check_otp now later code user rest rest' s e same =
    elim (Bool-cases (is_pending_user user.status)) [
      | inr n ↦ rw n refl
      | inl p ↦ elim (Bool-cases user.otp_verified) [
        | inl v ↦ rw (p, v) refl
        | inr w ↦ elim (Option-cases (non_empty user.otp_code)) [
          | inl missing ↦ rw (p, w, missing) refl
          | inr (stored, found) ↦ elim (Bool-cases (str_eq stored code)) [
            | inl right ↦ rw (p, w, found, e, right) same
            | inr wrong ↦ rw (p, w, found, e, wrong) refl
          ]
        ]
      ]
    ]

-- What a read by key answers.
read_user :
    (user_id : ℕ) (s : Db)
    → (find_by_id_include_otp user_id s ≡ err not_found)
      ⊎ ((u : User) × (find (has_id user_id) s.users ≡ some u)
          × (find_by_id_include_otp user_id s ≡ ok (selected u)))
unfolding find_by_id_include_otp find_user_by_id
read_user user_id s = elim (Option-cases (find (has_id user_id) s.users)) [
  | inl missing ↦ inl (rw (find_by_id_include_otp, find_user_by_id, missing) refl)
  | inr (u, found) ↦ inr (u, found, rw (find_by_id_include_otp, find_user_by_id, found) refl)
]

module _ (libraries : Libraries) (secrets : Secrets) (configured : ℤ) where
  -- verifyOtp answers with the same error, or with none, and leaves the same tables whatever the
  -- time is: a one-time password does not expire.
  pub verify_otp_any_time :
      (call : Call) (later user_id : ℕ) (otp_code : String) (s : Db)
      → seen (verify_otp libraries secrets configured call user_id otp_code s)
        ≡ seen (
            verify_otp libraries secrets configured
              (record call { now = later })
              user_id
              otp_code
              s)
  unfolding verify_otp
  verify_otp_any_time call later user_id otp_code s =
      elim (Bool-cases (is_valid_otp_format otp_code)) [
        | inr bad ↦ rw bad refl
        | inl good ↦ elim (read_user user_id s) [
          | inl missing ↦ rw (good, missing) refl
          | inr (u, _, found) ↦
              rw (good, found)
                (seen-check_otp call.now later otp_code (selected u) _ _ s refl (
                  seen-and_read (verify_in_transaction configured user_id)
                    (λ v _. session libraries secrets call.now false v)
                    (λ v _. session libraries secrets later false v) s))
        ]
      ]

-- What verifying a one-time password has done: the user waits for the deposit and has no password
-- left, and the principal savings of the user, which has had none, are pending.
pub record IsVerified (configured : ℤ) (user_id : ℕ) (s : Db) (u' : User) (s' : Db) : Type 0 where
  pub user : User
  pub known : find (has_id user_id) s.users ≡ some user
  pub result : u' ≡ set_user verified user
  pub users : s'.users ≡ update_where (has_id user_id) (set_user verified) s.users
  pub no_savings : savings_of user_id s ≡ none
  pub savings : PrincipalSavings
  pub owner : savings.user_id ≡ user_id
  pub rows : s'.principal_savings ≡ savings ∷ s.principal_savings
  pub created : savings_of user_id s' ≡ some savings
  pub unpaid : savings.status ≡ SavingsStatus.pending
  pub book : s'.book ≡ s.book

-- The insert of principal savings, when it goes through.
pub create_principal_savings-ok :
    (configured : ℤ) (user_id : ℕ) (s s' : Db)
    → create_principal_savings configured user_id s ≡ ok (tt, s')
    → (savings_of user_id s ≡ none)
      × ((p : PrincipalSavings) × (p.user_id ≡ user_id)
          × (p.status ≡ SavingsStatus.pending)
          × (s'
              ≡ record s { principal_savings = p ∷ s.principal_savings; next_id = s.next_id + 1 }))
unfolding create_principal_savings insert_principal_savings
create_principal_savings-ok configured user_id s s' h = elim (Option-cases (savings_of user_id s)) [
  | inr (p, there) ↦
      absurd (cc (rw (create_principal_savings, insert_principal_savings, there) at h))
  | inl nothing ↦
      let run = rw (create_principal_savings, insert_principal_savings, nothing) at h in
      (nothing, (_, refl, refl, sym (ap (λ r. r.1) (ok-injective run))))
]

module _ (configured : ℤ) (user_id : ℕ) (s : Db) where
  IsVerified-from :
      (u' : User) (s₁ s' : Db)
      → IsUpdated user_id verified s u' s₁
      → create_principal_savings configured user_id s₁ ≡ ok (tt, s')
      → IsVerified configured user_id s u' s'
  IsVerified-from u' s₁ s' f h =
      let (nothing, (p, owner, unpaid, rest)) =
        create_principal_savings-ok configured user_id s₁ s' h in
      record {
        user = f.user;
        known = f.known;
        result = f.result;
        users = ap (λ (x : Db). x.users) rest ∙ ap (λ (x : Db). x.users) f.rest;
        no_savings = rw f.rest at nothing;
        savings = p;
        owner = owner;
        rows =
            ap (λ (x : Db). x.principal_savings) rest
            ∙ ap (λ (x : Db). p ∷ x.principal_savings) f.rest;
        created = rw (rest, owner, ==_refl) refl;
        unpaid = unpaid;
        book = ap (λ (x : Db). x.book) rest ∙ ap (λ (x : Db). x.book) f.rest;
      }

  -- The transaction of verifyOtp, when it goes through, makes the user wait for the deposit, clears
  -- the password and creates pending principal savings for the user, who had none; the cashbook is
  -- left alone.
  pub verify_in_transaction-IsVerified :
      (u' : User) (s' : Db)
      → verify_in_transaction configured user_id s ≡ ok (u', s')
      → IsVerified configured user_id s u' s'
  unfolding verify_in_transaction
  verify_in_transaction-IsVerified u' s' h =
      let ((v, s₁), e₁, h₁) =
        >>=-eq-ok (update user_id verified)
          (λ user. create_principal_savings configured user_id >> pure user) s (u', s') h in
      let ((_, s₂), e₂, h₂) =
        >>-eq-ok (create_principal_savings configured user_id) (pure v) s₁ (u', s') h₁ in
      let same = ok-injective h₂ in
      let g = IsVerified-from v s₁ s₂ (update-IsUpdated user_id verified s v s₁ e₁) e₂ in
      subst (λ (r : User × Db). IsVerified configured user_id s r.0 r.1) same g

-- After a verification, no second one of the same user goes through, even one that read the user as
-- pending before the first.
pub verified_once :
    (configured : ℤ) (user_id : ℕ) (s : Db) (u' : User) (s' : Db)
    → verify_in_transaction configured user_id s ≡ ok (u', s')
    → (v : User) (after : Db) → verify_in_transaction configured user_id s' ≢ ok (v, after)
verified_once configured user_id s u' s' h v after h' =
    let f = verify_in_transaction-IsVerified configured user_id s u' s' h in
    let g = verify_in_transaction-IsVerified configured user_id s' v after h' in
    cc (f.created, g.no_savings)
