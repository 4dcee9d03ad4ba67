-- ===== src/Auth/Service.antt =====
-- `AuthService` (src/auth/auth.service.ts). `configured` is the minimum of the principal savings.
use be_lumbung_mesari.Prelude.{
  ℕ, ◌+◌, ◌*◌, ltb, ℤ, Bool, true, false, not, Option, none, some, String, str_eq,
}
use be_lumbung_mesari.Exec.{
  ok, err, Error, database, internal, not_found, bad_request, unauthorized, invalid_otp,
  user_not_pending, otp_already_verified, no_otp_found, otp_expired, Tx, Exec, pure, transaction,
  and_read, with_row, with_result, reject_if, ◌>>=◌, ◌>>◌,
}
use be_lumbung_mesari.Db.{Db, User, UserStatus, UserRole}
use be_lumbung_mesari.Savings.Service.{create_principal_savings}
use be_lumbung_mesari.Users.Repository.{
  UserDbFormat, UpdateUserEntity, find_by_email, find_by_identifier_with_role, find_by_reset_token,
}
use be_lumbung_mesari.Users.Service.{CreatedUser, create_user, find_by_id_include_otp, update}
use be_lumbung_mesari.Auth.Otp.{
  minute, is_valid_otp_format, generate_otp, get_otp_expiration_time, is_otp_expired,
}
use be_lumbung_mesari.Auth.Tokens.{
  Libraries, Secrets, Tokens, UserDataToken, is_pending_user, generate_tokens,
}

-- What a call is given: the time, what is drawn at random, and whether the mail is taken.
pub record Call : Type 0 where
  pub now : ℕ
  pub random_int : ℕ → ℕ → ℕ
  pub salt : String
  pub reset_token : String
  pub mailed : Bool

abbrev pub no_changes : UpdateUserEntity
no_changes = record {
  email = none;
  fullname = none;
  username = none;
  phone_number = none;
  password = none;
  address = none;
  status = none;
  role_id = none;
  otp_code = none;
  otp_verified = none;
  otp_expires_at = none;
  password_reset_token = none;
  password_reset_expires_at = none;
}

-- The columns of a new one-time password.
abbrev pub new_otp : Call → UpdateUserEntity
new_otp call = record no_changes {
  otp_code = some (some (generate_otp call.random_int));
  otp_expires_at = some (some (get_otp_expiration_time call.now));
}

abbrev pub token_data : User → UserDataToken
token_data u = record {
  id = u.id;
  username = u.username;
  email = u.email;
  status = u.status;
  role_id = some u.role_id;
}

pub record Session (T : Type 0) : Type 0 where
  pub token : Tokens T
  pub status : UserStatus
  pub email_sent : Bool

abbrev pub session : (libraries : Libraries) → Secrets → ℕ → Bool → User → Session libraries.Token
session libraries secrets now sent u = record {
  token = generate_tokens libraries secrets now (token_data u);
  status = u.status;
  email_sent = sent;
}

-- The session is made from the user that was read; a pending user is sent a new password first.
abbrev pub open_session :
    (libraries : Libraries) → Secrets → Call → User → Exec Db (Session libraries.Token)
open_session libraries secrets call user s = elim (is_pending_user user.status) [
  | true ↦
      and_read (transaction (update user.id (new_otp call)))
        (λ _ _. ok (session libraries secrets call.now call.mailed user)) s
  | false ↦ (ok (session libraries secrets call.now false user), s)
]

unfoldable pub login :
    (libraries : Libraries) → Secrets → Call → String → String → Exec Db (Session libraries.Token)
unfolding find_by_identifier_with_role
login libraries secrets call identifier input_password s =
    with_row (find_by_identifier_with_role identifier s) not_found
      (λ user.
        reject_if (not (libraries.compare input_password user.password)) unauthorized
          (open_session libraries secrets call user))
      s

pub record RegisterDto : Type 0 where
  pub email : String
  pub fullname : String
  pub username : String
  pub phone_number : String
  pub password : String
  pub password_confirmation : String
  pub address : String

abbrev pub registered : Libraries → Call → RegisterDto → CreatedUser
registered libraries call dto = record {
  email = dto.email;
  fullname = dto.fullname;
  username = dto.username;
  phone_number = dto.phone_number;
  password = libraries.hash call.salt dto.password;
  address = dto.address;
  status = UserStatus.pending;
  role_id = UserRole.member;
  otp_code = generate_otp call.random_int;
  otp_expires_at = get_otp_expiration_time call.now;
}

unfoldable pub register :
    (libraries : Libraries) → Secrets → Call → RegisterDto → Exec Db (Session libraries.Token)
unfolding create_user
register libraries secrets call dto =
    reject_if (not (str_eq dto.password dto.password_confirmation)) bad_request (
      and_read (transaction (create_user (registered libraries call dto)))
        (λ user _. ok (session libraries secrets call.now call.mailed user)))

-- `!user.otp_code`: the empty text counts as none.
abbrev pub non_empty : Option String → Option String
non_empty none = none
non_empty (some c) = elim (str_eq c "") [ true ↦ none | false ↦ some c ]

abbrev pub is_past : ℕ → Option ℕ → Bool
is_past now none = false
is_past now (some t) = is_otp_expired now t

abbrev pub verified : UpdateUserEntity
verified = record no_changes {
  status = some UserStatus.waiting_deposit;
  otp_verified = some true;
  otp_code = some none;
  otp_expires_at = some none;
}

-- The transaction of `verifyOtp`.
unfoldable pub verify_in_transaction : ℤ → ℕ → Tx Db User
verify_in_transaction configured user_id = do
  user ← update user_id verified
  create_principal_savings configured user_id
  pure user

-- The checks of `verifyOtp` on the user that was read, in their order.
abbrev pub check_otp : {A : Type 0} → ℕ → String → UserDbFormat → Exec Db A → Exec Db A
check_otp now otp_code user rest = reject_if (not (is_pending_user user.status)) user_not_pending (
    reject_if user.otp_verified otp_already_verified (
      with_row (non_empty user.otp_code) no_otp_found (λ stored.
        reject_if (is_past now user.otp_expires_at) otp_expired
          (reject_if (not (str_eq stored otp_code)) invalid_otp rest))))

unfoldable pub verify_otp :
    (libraries : Libraries) → Secrets → ℤ → Call → ℕ → String → Exec Db (Session libraries.Token)
unfolding verify_in_transaction find_by_id_include_otp
verify_otp libraries secrets configured call user_id otp_code s =
    reject_if (not (is_valid_otp_format otp_code)) invalid_otp
      (with_result (find_by_id_include_otp user_id s) (λ user. check_otp call.now otp_code user (
        and_read (transaction (verify_in_transaction configured user_id))
          (λ updated _. ok (session libraries secrets call.now false updated)))))
      s

unfoldable pub resend_otp : Call → ℕ → Exec Db Bool
unfolding find_by_id_include_otp update
resend_otp call user_id s =
    with_result (find_by_id_include_otp user_id s)
      (λ user. reject_if (not (is_pending_user user.status)) user_not_pending (
        reject_if user.otp_verified otp_already_verified
          (and_read (transaction (update user.id (new_otp call))) (λ _ _. ok call.mailed))))
      s

abbrev pub new_reset : Call → UpdateUserEntity
new_reset call = record no_changes {
  password_reset_token = some (some call.reset_token);
  password_reset_expires_at = some (some (call.now + 60 * minute));
}

-- What the database raises is answered as an internal error.
abbrev pub as_internal : Error → Error
as_internal (database _) = internal
as_internal e = e

-- The same answer whether the address is known or not.
unfoldable pub request_password_reset : Call → String → Exec Db Unit
unfolding update
request_password_reset call email s = elim (find_by_email email s) [
  | none ↦ (ok tt, s)
  | some user ↦ elim (update user.id (new_reset call) s) [
    | ok (_, s') ↦ (ok tt, s')
    | err e ↦ (err (as_internal e), s)
  ]
]

-- A reset without an expiry, or past it.
abbrev pub is_reset_expired : ℕ → Option ℕ → Bool
is_reset_expired now none = true
is_reset_expired now (some t) = ltb t now

abbrev pub new_password : Libraries → Call → String → UpdateUserEntity
new_password libraries call password = record no_changes {
  password = some (libraries.hash call.salt password);
  password_reset_token = some none;
  password_reset_expires_at = some none;
}

unfoldable pub confirm_password_reset : Libraries → Call → String → String → String → Exec Db Unit
unfolding find_by_reset_token update
confirm_password_reset libraries call token password confirmation s =
    reject_if (not (str_eq password confirmation)) bad_request
      (with_row (find_by_reset_token token s) bad_request (λ user.
        reject_if (is_reset_expired call.now user.password_reset_expires_at) bad_request (
          and_read (transaction (update user.id (new_password libraries call password)))
            (λ _ _. ok tt))))
      s
