-- ===== src/Users/Service.antt =====
-- `UsersService` (src/users/users.service.ts). `mailed` is whether the mail server takes the mail.
use be_lumbung_mesari.Prelude.{
  ℕ, ◌*◌, ◌+◌, ◌/◌, ltb, leb, ◌&&◌, Bool, true, false, not, ◌==◌, Option, none, some, List, String,
  select, if◌then◌else◌,
}
use be_lumbung_mesari.Exec.{
  Result, ok, err, not_found, bad_request, conflict, email_failed, Tx, Exec, throw_if, or_throw,
  gets, transaction, and_read, with_row, reject_if, ◌>>=◌, ◌>>◌,
}
use be_lumbung_mesari.Calendar.{Clock}
use be_lumbung_mesari.Db.{Db, User, UserStatus, UserRole, MandatorySavings}
use be_lumbung_mesari.Savings.Service.{settle_principal_savings}
use be_lumbung_mesari.Pagination.{order_by}
use be_lumbung_mesari.Users.Repository.{
  UserDbFormat, find_user_by_id, find_by_email, find_by_username, is_found, UpdateUserEntity,
  update_user, update_status, insert_user,
}

unfoldable pub validate_user_uniqueness : String → String → Tx Db Unit
validate_user_uniqueness email username = do
  by_email ← gets (find_by_email email)
  by_username ← gets (find_by_username username)
  throw_if (is_found by_email) conflict
  throw_if (is_found by_username) conflict

-- `findByIdIncludeOtp`, and `findById`, which drops the code of the one-time password.
unfoldable pub find_by_id_include_otp : ℕ → Db → Result UserDbFormat
find_by_id_include_otp id s = elim (find_user_by_id id s) [ none ↦ err not_found | some u ↦ ok u ]

unfoldable pub find_user : ℕ → Db → Result UserDbFormat
find_user id s = elim (find_user_by_id id s) [
  | none ↦ err not_found
  | some u ↦ ok (record u { otp_code = none; otp_expires_at = none })
]

pub record CreatedUser : Type 0 where
  pub email : String
  pub fullname : String
  pub username : String
  pub phone_number : String
  pub password : String
  pub address : String
  pub status : UserStatus
  pub role_id : UserRole
  pub otp_code : String
  pub otp_expires_at : ℕ

-- The row of a created user, with the defaults of the table.
abbrev pub row_of : CreatedUser → User
row_of user = record {
  id = 0;
  email = user.email;
  fullname = user.fullname;
  username = user.username;
  password = user.password;
  phone_number = user.phone_number;
  address = user.address;
  status = user.status;
  role_id = user.role_id;
  otp_code = some user.otp_code;
  otp_expires_at = some user.otp_expires_at;
  otp_verified = false;
  password_reset_token = none;
  password_reset_expires_at = none;
}

unfoldable pub create_user : CreatedUser → Tx Db User
create_user user = do validate_user_uniqueness user.email user.username; insert_user (row_of user)

unfoldable pub update : ℕ → UpdateUserEntity → Tx Db User
update id changes = do
  existing ← gets (find_user_by_id id)
  or_throw existing not_found
  update_user id changes

pub record ApprovalResponse : Type 0 where
  pub status : UserStatus
  pub user_id : ℕ

abbrev pub is_waiting : UserStatus → Bool
is_waiting UserStatus.waiting_deposit = true
is_waiting _ = false

-- The transaction of an approval, and that of a rejection.
unfoldable pub approve_in_transaction : Clock → ℕ → ℕ → Tx Db Unit
approve_in_transaction clock user_id admin_id = do
  update_status user_id UserStatus.active
  settle_principal_savings clock user_id admin_id

unfoldable pub reject_in_transaction : ℕ → Tx Db Unit
reject_in_transaction user_id = update_status user_id UserStatus.rejected

-- `sendApprovalEmail`, after the commit: a mail that is not taken is thrown.
abbrev pub approval_email : Bool → UserStatus → ℕ → Unit {0} → Db → Result ApprovalResponse
approval_email mailed status user_id _ _ =
    if mailed then ok (record { status = status; user_id = user_id }) else err email_failed

-- The frame that `approveUser` and `rejectUser` share: the read before the transaction, the guard,
-- the transaction and the mail.
abbrev pub decide_user : Bool → UserStatus → ℕ → Tx Db Unit → Exec Db ApprovalResponse
decide_user mailed status user_id body s =
    with_row (find_user_by_id user_id s) not_found
      (λ user.
        reject_if (not (is_waiting user.status)) bad_request
          (and_read (transaction body) (approval_email mailed status user_id)))
      s

unfoldable pub approve_user : Clock → Bool → ℕ → ℕ → Exec Db ApprovalResponse
unfolding approve_in_transaction find_user_by_id
approve_user clock mailed user_id admin_id =
    decide_user mailed UserStatus.active user_id (approve_in_transaction clock user_id admin_id)

unfoldable pub reject_user : Bool → ℕ → Exec Db ApprovalResponse
unfolding reject_in_transaction find_user_by_id
reject_user mailed user_id =
    decide_user mailed UserStatus.rejected user_id (reject_in_transaction user_id)

-- `getMySavings`; a period counts months from the year 0.
unfoldable pub get_my_savings : ℕ → Option ℕ → Clock → Db → List MandatorySavings
get_my_savings user_id asked clock s =
    let year : ℕ = elim asked [ some y ↦ y | none ↦ clock.date.month / 12 ] in
    order_by (λ (a b : MandatorySavings). leb a.period b.period)
      (select
        (λ (m : MandatorySavings).
          m.user_id == user_id && leb (year * 12) m.period && ltb m.period (year * 12 + 12))
        s.mandatory_savings)
