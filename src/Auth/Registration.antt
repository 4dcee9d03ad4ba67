-- ===== src/Auth/Registration.antt =====
-- From a registration to the deposit.
use text.Mathlib.TextPositions.{eq_refl}
use Prim.Native.String.{String}
use be_lumbung_mesari.Prelude.{
  ℕ, ℤ, ◌≡◌, refl, ap, ◌∙◌, subst, true, false, none, some, str_eq, find, update_where, ==_refl,
  ◌∷◌, Bool-cases, inl, inr, eq_iff,
}
use be_lumbung_mesari.Exec.{Result-cases, ok, commits, >>=-ok, >>-ok, pure, ◌>>◌}
use be_lumbung_mesari.Db.{Db, User, UserStatus}
use be_lumbung_mesari.Savings.Records.{insert_principal_savings}
use be_lumbung_mesari.Savings.Service.{create_principal_savings}
use be_lumbung_mesari.Savings.Principal.{savings_of}
use be_lumbung_mesari.Users.Repository.{has_id, set_user}
use be_lumbung_mesari.Users.Service.{update, find_by_id_include_otp}
use be_lumbung_mesari.Users.Updates.{update-goes}
use be_lumbung_mesari.Auth.Otp.{is_valid_otp_format, generate_otp}
use be_lumbung_mesari.Auth.Codes.{IsRandomInt, generate_otp-read}
use be_lumbung_mesari.Auth.Credentials.{register-ok}
use be_lumbung_mesari.Auth.Tokens.{Libraries, Secrets}
use be_lumbung_mesari.Auth.Service.{
  Call, Session, session, RegisterDto, register, verified, verify_in_transaction, verify_otp,
  non_empty,
}
use be_lumbung_mesari.Auth.Verification.{read_known, IsVerified, verify_in_transaction-IsVerified}

-- Creating the principal savings of a user who has none goes through.
create_principal_savings-goes :
    (configured : ℤ) (user_id : ℕ) (s : Db)
    → savings_of user_id s ≡ none
    → (s' : Db) × (create_principal_savings configured user_id s ≡ ok (tt, s'))
unfolding create_principal_savings insert_principal_savings
create_principal_savings-goes configured user_id s nothing =
    elim (Result-cases (create_principal_savings configured user_id s)) [
      | inl ((_, s'), went) ↦ (s', went)
      | inr (e, failed) ↦
          absurd (cc (rw (create_principal_savings, insert_principal_savings, nothing) at failed))
    ]

-- The transaction of a verification goes through for a user who is there and has no savings.
verify_in_transaction-goes :
    (configured : ℤ) (user_id : ℕ) (s : Db) (u : User)
    → find (has_id user_id) s.users ≡ some u
    → savings_of user_id s ≡ none
    → (v : User) × (s' : Db) × (verify_in_transaction configured user_id s ≡ ok (v, s'))
unfolding verify_in_transaction
verify_in_transaction-goes configured user_id s u known nothing =
    let goes = update-goes user_id verified s u refl refl known in
    let s₁ = record s { users = update_where (has_id user_id) (set_user verified) s.users } in
    let (s', created) = create_principal_savings-goes configured user_id s₁ nothing in
    (
      set_user verified u,
      s',
      >>=-ok (update user_id verified)
          (λ user. create_principal_savings configured user_id >> pure user) s _ _ goes
          (>>-ok (create_principal_savings configured user_id) (pure (set_user verified u)) s₁ _ _
            created refl),
    )

-- A code of the right format is not empty.
valid-non_empty : (c : String) → is_valid_otp_format c ≡ true → str_eq c "" ≡ false
unfolding is_valid_otp_format
valid-non_empty c v = elim (Bool-cases (str_eq c "")) [
  | inr f ↦ f
  | inl t ↦
      let v' = subst (λ x. is_valid_otp_format x ≡ true) ((eq_iff c "").0 t) v in absurd (cc v')
]

-- A pending user who is there, has no principal savings yet and was sent a code of the right format
-- verifies with it at any time: the call opens a session, and afterwards the user waits for the
-- deposit with pending principal savings.
verify_otp-IsVerified :
    (libraries : Libraries) (secrets : Secrets) (configured : ℤ) (call : Call) (user_id : ℕ)
    (code : String) (s : Db) (u : User)
    → find (has_id user_id) s.users ≡ some u
    → u.status ≡ UserStatus.pending
    → u.otp_verified ≡ false
    → u.otp_code ≡ some code
    → is_valid_otp_format code ≡ true
    → savings_of user_id s ≡ none
    → (v : User) × (s' : Db) × (verify_otp libraries secrets configured call user_id code s
        ≡ (ok (session libraries secrets call.now false v), s'))
      × IsVerified configured user_id s v s'
unfolding verify_otp find_by_id_include_otp
verify_otp-IsVerified libraries secrets configured call user_id code s u known pending fresh sent
      valid nothing =
    let (v, s', went) = verify_in_transaction-goes configured user_id s u known nothing in
    let written = valid-non_empty code valid in
    let read = read_known user_id s u known in
    let answer =
      commits (verify_in_transaction configured user_id)
        (λ x _. ok (session libraries secrets call.now false x)) s v s' went in
    (
      v,
      s',
      rw (valid, read, pending, fresh, sent, non_empty, written, eq_refl) answer,
      verify_in_transaction-IsVerified configured user_id s v s' went,
    )

-- After a registration that went through, the code that was sent verifies the new user at any time,
-- if randomInt draws within its bounds and the new key has no principal savings yet: the call opens
-- a session, and afterwards the user waits for the deposit with pending principal savings.
pub register-verify_otp :
    (libraries : Libraries) (secrets : Secrets) (configured : ℤ) (call : Call) (dto : RegisterDto)
    (s : Db) (x : Session libraries.Token) (s' : Db)
    → register libraries secrets call dto s ≡ (ok x, s')
    → IsRandomInt call.random_int
    → savings_of s.next_id s ≡ none
    → (later : Call)
    → (v : User) × (after : Db) × (verify_otp libraries secrets configured later s.next_id
          (generate_otp call.random_int)
          s'
        ≡ (ok (session libraries secrets later.now false v), after))
      × IsVerified configured s.next_id s' v after
register-verify_otp libraries secrets configured call dto s x s' h draws nothing later =
    let (u, row, rest) = register-ok libraries secrets call dto s x s' h in
    let users : s'.users ≡ u ∷ s.users = ap (λ (z : Db). z.users) rest in
    let key : u.id ≡ s.next_id = ap (λ (z : User). z.id) row in
    let known : find (has_id s.next_id) s'.users ≡ some u = rw (users, key, ==_refl) refl in
    let code = generate_otp call.random_int in
    let pending : u.status ≡ UserStatus.pending = ap (λ (z : User). z.status) row in
    let fresh : u.otp_verified ≡ false = ap (λ (z : User). z.otp_verified) row in
    let sent : u.otp_code ≡ some code = ap (λ (z : User). z.otp_code) row in
    let none_yet : savings_of s.next_id s' ≡ none =
      ap (λ (z : Db). savings_of s.next_id z) rest ∙ nothing in
    verify_otp-IsVerified libraries secrets configured later s.next_id code s' u known pending fresh
      sent (generate_otp-read call.random_int draws).0 none_yet
