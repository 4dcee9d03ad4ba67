-- ===== src/Auth/Tokens.antt =====
-- Tokens: `generateTokens` (src/auth/auth.service.ts), the strategies and guards that read them
-- (src/auth/strategies, src/auth/guards). bcrypt and jsonwebtoken are the parameter `Libraries`.
use be_lumbung_mesari.Prelude.{
  ℕ, ◌*◌, Bool, true, false, ◌||◌, not, Option, none, some, List, [], ◌∷◌, String, if◌then◌else◌,
}
use be_lumbung_mesari.Exec.{Result, ok, err, unauthorized, forbidden}
use be_lumbung_mesari.Db.{Db, UserStatus, UserRole}
use be_lumbung_mesari.Users.Service.{find_user}
use be_lumbung_mesari.Auth.Otp.{minute}

pub record JwtPayload : Type 0 where
  pub sub : ℕ
  pub username : String
  pub email : String
  pub role_id : UserRole
  pub status : UserStatus

-- `hash salt password` is bcrypt's with a salt; `sign now lifetime secret payload` makes a token
-- and `verify now secret token` reads one that is signed with the secret and not expired.
pub record Libraries : Type 1 where
  pub Token : Type 0
  pub hash : String → String → String
  pub compare : String → String → Bool
  pub sign : ℕ → ℕ → String → JwtPayload → Token
  pub verify : ℕ → String → Token → Option JwtPayload

pub record Secrets : Type 0 where
  pub jwt_secret : String
  pub jwt_refresh_secret : String

-- A user as `generateTokens` reads it: an object that has no `role_id` gives `undefined`.
pub record UserDataToken : Type 0 where
  pub id : ℕ
  pub username : String
  pub email : String
  pub status : UserStatus
  pub role_id : Option UserRole

pub record Tokens (T : Type 0) : Type 0 where
  pub access_token : T
  pub refresh_token : T

abbrev pub is_pending_user : UserStatus → Bool
is_pending_user UserStatus.pending = true
is_pending_user _ = false

abbrev pub or_member : Option UserRole → UserRole
or_member none = UserRole.member
or_member (some r) = r

abbrev pub payload_of : UserDataToken → JwtPayload
payload_of user = record {
  sub = user.id;
  username = user.username;
  email = user.email;
  role_id = or_member user.role_id;
  status = user.status;
}

-- Ten minutes, or an hour; a day for the refresh token.
abbrev pub access_token_expiry : UserStatus → ℕ
access_token_expiry status = if is_pending_user status then 10 * minute else 60 * minute

abbrev pub refresh_token_expiry : ℕ
refresh_token_expiry = 24 * (60 * minute)

unfoldable pub generate_tokens :
    (libraries : Libraries) → Secrets → ℕ → UserDataToken → Tokens libraries.Token
generate_tokens libraries secrets now user = record {
  access_token =
      libraries.sign now (access_token_expiry user.status) secrets.jwt_secret (payload_of user);
  refresh_token =
      libraries.sign now refresh_token_expiry secrets.jwt_refresh_secret (payload_of user);
}

-- What a strategy leaves on the request.
pub record UserJwt : Type 0 where
  pub id : ℕ
  pub username : String
  pub email : String
  pub role : UserRole
  pub status : UserStatus

abbrev pub is_deactivated : UserStatus → Bool
is_deactivated UserStatus.inactive = true
is_deactivated UserStatus.rejected = true
is_deactivated _ = false

-- `JwtStrategy.validate`: the user as it is stored.
unfoldable pub validate : Db → JwtPayload → Result UserJwt
unfolding find_user
validate s payload = elim (find_user payload.sub s) [
  | err e ↦ err e
  | ok user ↦
      if is_deactivated user.status
      then err unauthorized
      else ok (record {
        id = user.id;
        username = user.username;
        email = user.email;
        role = user.role_id;
        status = user.status;
      })
]

-- `JwtRefreshStrategy.validate`: the payload with the stored status.
unfoldable pub validate_refresh : Db → JwtPayload → Result UserJwt
unfolding find_user
validate_refresh s payload = elim (find_user payload.sub s) [
  | err e ↦ err e
  | ok user ↦ ok (record {
    id = payload.sub;
    username = payload.username;
    email = payload.email;
    role = payload.role_id;
    status = user.status;
  })
]

-- `handleRequest` of both guards: whatever a strategy throws is answered as unauthorized.
abbrev pub handle_request : Result UserJwt → Result UserJwt
handle_request (err e) = err unauthorized
handle_request (ok user) = ok user

-- A strategy behind its guard: a token that does not verify is unauthorized.
abbrev pub behind_guard : (JwtPayload → Result UserJwt) → Option JwtPayload → Result UserJwt
behind_guard check none = err unauthorized
behind_guard check (some payload) = handle_request (check payload)

unfoldable pub jwt_guard :
    (libraries : Libraries) → Secrets → ℕ → Db → libraries.Token → Result UserJwt
unfolding validate
jwt_guard libraries secrets now s token =
    behind_guard (validate s) (libraries.verify now secrets.jwt_secret token)

unfoldable pub jwt_refresh_guard :
    (libraries : Libraries) → Secrets → ℕ → Db → libraries.Token → Result UserJwt
unfolding validate_refresh
jwt_refresh_guard libraries secrets now s token =
    behind_guard (validate_refresh s) (libraries.verify now secrets.jwt_refresh_secret token)

-- The object of the refresh strategy has a `role`, and no `role_id`.
abbrev pub refreshed_user : UserJwt → UserDataToken
refreshed_user user = record {
  id = user.id;
  username = user.username;
  email = user.email;
  status = user.status;
  role_id = none;
}

unfoldable pub refresh_token :
    (libraries : Libraries) → Secrets → ℕ → UserJwt → Tokens libraries.Token
unfolding generate_tokens
refresh_token libraries secrets now user =
    generate_tokens libraries secrets now (refreshed_user user)

abbrev pub same_role : UserRole → UserRole → Bool
same_role UserRole.superadministrator UserRole.superadministrator = true
same_role UserRole.administrator UserRole.administrator = true
same_role UserRole.member UserRole.member = true
same_role _ _ = false

abbrev pub includes : List UserRole → UserRole → Bool
includes [] role = false
includes (r ∷ rs) role = same_role r role || includes rs role

-- `RolesGuard.canActivate`
unfoldable pub can_activate : List UserRole → UserJwt → Result Bool
can_activate [] user = ok true
can_activate (r ∷ rs) user = if not (includes (r ∷ rs) user.role) then err forbidden else ok true
