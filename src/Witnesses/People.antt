-- ===== src/Witnesses/People.antt =====
-- A member, a newcomer, and libraries for the concrete runs of the users.
use text.Mathlib.TextPositions.{eq_refl}
use be_lumbung_mesari.Prelude.{
  ℕ, ◌+◌, pos, ◌≡◌, refl, true, ◌&&◌, none, some, [], ◌∷◌, String, str_eq, leb, ltb, if◌then◌else◌,
  arith,
}
use be_lumbung_mesari.Db.{Db, User, UserStatus, UserRole, PrincipalSavings, SavingsStatus}
use be_lumbung_mesari.Auth.Tokens.{JwtPayload, Libraries, Secrets}
use be_lumbung_mesari.Auth.Service.{Call, RegisterDto}
use be_lumbung_mesari.Auth.Credentials.{IsBcrypt}
use be_lumbung_mesari.Auth.Sessions.{IsJwt}
use be_lumbung_mesari.Witnesses.Fixtures.{db}

-- Libraries that keep their promises: a hash that adds nothing, and tokens that say what was signed.
abbrev pub libraries : Libraries
libraries = record {
  Token = ℕ × (ℕ × (String × JwtPayload));
  hash = λ salt password. password;
  compare = λ password hashed. str_eq password hashed;
  sign = λ issued lifetime secret payload. (issued, (lifetime, (secret, payload)));
  verify = λ now secret token.
      if ltb now (token.0 + token.1.0) && str_eq secret token.1.1.0 then some token.1.1.1 else none;
}

pub bcrypt : IsBcrypt libraries
bcrypt salt password = eq_refl password

pub jwt : IsJwt libraries
jwt issued lifetime now secret payload h =
    let fresh : ltb now (issued + lifetime) ≡ true = ground (arith, h) in rw (fresh, eq_refl) refl

abbrev pub secrets : Secrets
secrets = record { jwt_secret = "access"; jwt_refresh_secret = "refresh" }

-- Draws 123456 where it may.
abbrev pub draw : ℕ → ℕ → ℕ
draw least bound = if leb least 123456 && ltb 123456 bound then 123456 else least

abbrev pub call : Call
call = record { now = 1000; random_int = draw; salt = "salt"; reset_token = "reset"; mailed = true }

abbrev pub dto : RegisterDto
dto = record {
  email = "ayu@example.com";
  fullname = "Ayu";
  username = "ayu";
  phone_number = "081234567890";
  password = "Rahasia123";
  password_confirmation = "Rahasia123";
  address = "Sibanggede";
}

abbrev pub waiting : User
waiting = record {
  id = 5;
  email = "made@example.com";
  fullname = "Made";
  username = "made";
  password = "Rahasia456";
  phone_number = "081234567891";
  address = "Sibanggede";
  status = UserStatus.waiting_deposit;
  role_id = UserRole.member;
  otp_code = none;
  otp_expires_at = none;
  otp_verified = true;
  password_reset_token = some "reset";
  password_reset_expires_at = some 5000;
}

abbrev pub deposit : PrincipalSavings
deposit = record {
  id = 41;
  user_id = 5;
  amount = pos 1000000;
  status = SavingsStatus.pending;
  processed_by = none;
  paid_at = none;
}

abbrev pub members : Db
members = record db { users = waiting ∷ []; principal_savings = deposit ∷ [] }
