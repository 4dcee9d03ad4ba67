-- ===== src/Users/Repository.antt =====
-- The queries of src/users/users.repository.ts on one user, with the unique keys of the table.
-- An instant is a number of milliseconds. The column lengths are left out.
use be_lumbung_mesari.Prelude.{
  ℕ, ◌+◌, Bool, true, false, not, ◌&&◌, ◌||◌, ◌==◌, str_eq, Option, none, some, List, ◌∷◌, String,
  find, update_where, length, select, if◌then◌else◌,
}
use be_lumbung_mesari.Exec.{ok, err, database, duplicate_key, missing_row, Tx}
use be_lumbung_mesari.Db.{Db, User, UserStatus, UserRole}
use be_lumbung_mesari.Savings.Records.{is_active_member}

abbrev pub has_id : ℕ → User → Bool
has_id id u = u.id == id

-- A user without the password and the columns of its reset.
pub record UserDbFormat : Type 0 where
  pub id : ℕ
  pub email : String
  pub fullname : String
  pub username : String
  pub phone_number : String
  pub address : String
  pub status : UserStatus
  pub role_id : UserRole
  pub otp_code : Option String
  pub otp_expires_at : Option ℕ
  pub otp_verified : Bool

-- The columns that `findById` selects; `otp_expires_at` is not one of them.
abbrev pub selected : User → UserDbFormat
selected u = record {
  id = u.id;
  email = u.email;
  fullname = u.fullname;
  username = u.username;
  phone_number = u.phone_number;
  address = u.address;
  status = u.status;
  role_id = u.role_id;
  otp_code = u.otp_code;
  otp_expires_at = none;
  otp_verified = u.otp_verified;
}

unfoldable pub find_user_by_id : ℕ → Db → Option UserDbFormat
find_user_by_id id s = elim (find (has_id id) s.users) [ none ↦ none | some u ↦ some (selected u) ]

abbrev pub find_by_email : String → Db → Option User
find_by_email email s = find (λ u. str_eq u.email email) s.users

abbrev pub find_by_username : String → Db → Option User
find_by_username username s = find (λ u. str_eq u.username username) s.users

-- The join with the role, which each user has. The query has no order; here the newest row stands
-- first. No name has an `@` (src/auth/dto/register.dto.ts), so no identifier names two users.
unfoldable pub find_by_identifier_with_role : String → Db → Option User
find_by_identifier_with_role identifier s =
    find (λ u. str_eq u.email identifier || str_eq u.username identifier) s.users

-- `password_reset_token = token`: null equals nothing.
abbrev pub has_token : String → User → Bool
has_token token u = elim u.password_reset_token [ none ↦ false | some t ↦ str_eq t token ]

unfoldable pub find_by_reset_token : String → Db → Option User
find_by_reset_token token s = find (has_token token) s.users

-- A column that is `undefined` is left alone.
abbrev pub or_keep {ℓ} : {A : Type ℓ} → Option A → A → A
or_keep none a = a
or_keep (some b) a = b

pub record UpdateUserEntity : Type 0 where
  pub email : Option String
  pub fullname : Option String
  pub username : Option String
  pub phone_number : Option String
  pub password : Option String
  pub address : Option String
  pub status : Option UserStatus
  pub role_id : Option UserRole
  pub otp_code : Option (Option String)
  pub otp_verified : Option Bool
  pub otp_expires_at : Option (Option ℕ)
  pub password_reset_token : Option (Option String)
  pub password_reset_expires_at : Option (Option ℕ)

abbrev pub set_user : UpdateUserEntity → User → User
set_user changes u = record {
  id = u.id;
  email = or_keep changes.email u.email;
  fullname = or_keep changes.fullname u.fullname;
  username = or_keep changes.username u.username;
  password = or_keep changes.password u.password;
  phone_number = or_keep changes.phone_number u.phone_number;
  address = or_keep changes.address u.address;
  status = or_keep changes.status u.status;
  role_id = or_keep changes.role_id u.role_id;
  otp_code = or_keep changes.otp_code u.otp_code;
  otp_expires_at = or_keep changes.otp_expires_at u.otp_expires_at;
  otp_verified = or_keep changes.otp_verified u.otp_verified;
  password_reset_token = or_keep changes.password_reset_token u.password_reset_token;
  password_reset_expires_at = or_keep changes.password_reset_expires_at u.password_reset_expires_at;
}

abbrev pub is_found {ℓ} : {A : Type ℓ} → Option A → Bool
is_found none = false
is_found (some _) = true

-- A unique column, when it is set: another user must not have the value.
abbrev pub is_taken : (User → String) → ℕ → Option String → List User → Bool
is_taken column id none users = false
is_taken column id (some v) users =
    is_found (find (λ u. not (u.id == id) && str_eq (column u) v) users)

unfoldable pub update_user : ℕ → UpdateUserEntity → Tx Db User
update_user id changes s = elim (find (has_id id) s.users) [
  | none ↦ err missing_row
  | some u ↦
      if is_taken (λ x. x.email) id changes.email s.users
        || is_taken (λ x. x.username) id changes.username s.users
      then err (database duplicate_key)
      else ok (
        set_user changes u,
        record s { users = update_where (has_id id) (set_user changes) s.users },
      )
]

abbrev pub with_status : UserStatus → User → User
with_status status u = record u { status = status }

unfoldable pub update_status : ℕ → UserStatus → Tx Db Unit
update_status id status s = elim (find (has_id id) s.users) [
  | none ↦ err missing_row
  | some _ ↦ ok (tt, record s { users = update_where (has_id id) (with_status status) s.users })
]

-- `create` of the base repository: the key is drawn, and e-mail and username are unique.
unfoldable pub insert_user : User → Tx Db User
insert_user row s =
    if is_found (find_by_email row.email s) || is_found (find_by_username row.username s)
    then err (database duplicate_key)
    else ok (
      record row { id = s.next_id },
      record s { users = record row { id = s.next_id } ∷ s.users; next_id = s.next_id + 1 },
    )

unfoldable pub get_active_member_count : Db → ℕ
get_active_member_count s = length (select is_active_member s.users)
