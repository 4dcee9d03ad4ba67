-- ===== src/Witnesses/Accounts.antt =====
-- Runs of the authentication.
use be_lumbung_mesari.Prelude.{pos, ◌≡◌, ◌≢◌, refl, true, false, ◌&&◌, none, some, inr, arith}
use be_lumbung_mesari.Exec.{ok}
use be_lumbung_mesari.Db.{Db, User, UserStatus, UserRole}
use be_lumbung_mesari.Savings.Records.{insert_principal_savings}
use be_lumbung_mesari.Savings.Service.{create_principal_savings}
use be_lumbung_mesari.Users.Repository.{
  update_user, insert_user, find_user_by_id, find_by_identifier_with_role, find_by_reset_token,
}
use be_lumbung_mesari.Users.Service.{create_user, update, validate_user_uniqueness}
use be_lumbung_mesari.Auth.Otp.{codes, is_valid_otp_format, generate_otp, decimal, decimal_from}
use be_lumbung_mesari.Auth.Tokens.{is_pending_user, generate_tokens, jwt_guard}
use be_lumbung_mesari.Auth.Service.{
  Call, Session, session, token_data, register, login, verify_in_transaction, verify_otp,
  confirm_password_reset,
}
use be_lumbung_mesari.Auth.Codes.{IsRandomInt, number_of, generate_otp-read}
use be_lumbung_mesari.Auth.Verification.{seen, IsVerified, verify_otp_any_time, verified_once}
use be_lumbung_mesari.Auth.Credentials.{register-login, confirm_password_reset-login}
use be_lumbung_mesari.Auth.Sessions.{request_user, jwt_guard-generate_tokens}
use be_lumbung_mesari.Auth.Registration.{register-verify_otp}
use be_lumbung_mesari.Witnesses.Fixtures.{after, db}
use be_lumbung_mesari.Witnesses.People.{
  draw, libraries, bcrypt, jwt, secrets, call, dto, waiting, members,
}

abbrev joined : Db
joined = (register libraries secrets call dto db).1

abbrev newcomer : User
newcomer = record {
  id = 100;
  email = "ayu@example.com";
  fullname = "Ayu";
  username = "ayu";
  password = "Rahasia123";
  phone_number = "081234567890";
  address = "Sibanggede";
  status = UserStatus.pending;
  role_id = UserRole.member;
  otp_code = some "123456";
  otp_expires_at = some 301000;
  otp_verified = false;
  password_reset_token = none;
  password_reset_expires_at = none;
}

abbrev opened : Session libraries.Token
opened = session libraries secrets 1000 true newcomer

registration : register libraries secrets call dto db ≡ (ok opened, joined)
unfolding register create_user validate_user_uniqueness insert_user generate_otp decimal
    decimal_from
registration = refl

-- An hour later.
abbrev later : Call
later = record call { now = 3601000; mailed = false }

register-login_example :
    (u : User) × (u.email ≡ dto.email)
    × (u.status ≡ UserStatus.pending)
    × ((login libraries secrets later "ayu" "Rahasia123" joined).0
        ≡ ok (session libraries secrets 3601000 false u))
register-login_example =
    register-login libraries secrets bcrypt call dto db opened joined registration later "ayu"
      (inr refl)

draw-IsRandomInt : IsRandomInt draw
draw-IsRandomInt least bound h = ground (arith, h)

register-verify_otp_example :
    (v : User) × (state : Db) × (verify_otp libraries secrets
        (pos 500000)
        later
        100
        (generate_otp draw)
        joined
      ≡ (ok (session libraries secrets 3601000 false v), state))
    × IsVerified (pos 500000) 100 joined v state
register-verify_otp_example =
    register-verify_otp libraries secrets (pos 500000) call dto db opened joined registration
      draw-IsRandomInt refl later

verify_otp_any_time_example :
    seen (verify_otp libraries secrets (pos 500000) call 100 "123456" joined)
    ≡ seen (
        verify_otp libraries secrets
          (pos 500000)
          (record call { now = 3601000 })
          100
          "123456"
          joined)
verify_otp_any_time_example =
    verify_otp_any_time libraries secrets (pos 500000) call 3601000 100 "123456" joined

abbrev updated : User
updated = record newcomer {
  status = UserStatus.waiting_deposit;
  otp_verified = true;
  otp_code = none;
  otp_expires_at = none;
}

abbrev waits : Db
waits = after (verify_in_transaction (pos 500000) 100 joined) joined

verification : verify_in_transaction (pos 500000) 100 joined ≡ ok (updated, waits)
unfolding verify_in_transaction update find_user_by_id update_user create_principal_savings
    insert_principal_savings register create_user validate_user_uniqueness insert_user generate_otp
    decimal decimal_from
verification = refl

verified_once_example : verify_in_transaction (pos 500000) 100 waits ≢ ok (updated, waits)
verified_once_example =
    verified_once (pos 500000) 100 joined updated waits verification updated waits

abbrev reset : Db
reset = (confirm_password_reset libraries call "reset" "Baru1234" "Baru1234" members).1

resetting :
    confirm_password_reset libraries call "reset" "Baru1234" "Baru1234" members ≡ (ok tt, reset)
unfolding confirm_password_reset find_by_reset_token update find_user_by_id update_user
resetting = refl

by_username : find_by_identifier_with_role "made" members ≡ some waiting
unfolding find_by_identifier_with_role
by_username = refl

by_token : find_by_reset_token "reset" members ≡ some waiting
unfolding find_by_reset_token
by_token = refl

confirm_password_reset-login_example :
    (u : User) × (u.id ≡ 5)
    × (u.status ≡ UserStatus.waiting_deposit)
    × ((login libraries secrets later "made" "Baru1234" reset).0
        ≡ ok (session libraries secrets 3601000 (is_pending_user u.status && false) u))
confirm_password_reset-login_example =
    confirm_password_reset-login libraries secrets bcrypt call "reset" "Baru1234" "Baru1234" members
      reset resetting "made" waiting by_username by_token later

jwt_guard-generate_tokens_example :
    jwt_guard libraries secrets 2000 members
      (generate_tokens libraries secrets 1000 (token_data waiting)).access_token
    ≡ ok (request_user waiting)
jwt_guard-generate_tokens_example =
    jwt_guard-generate_tokens libraries secrets jwt 1000 2000 (token_data waiting) waiting members
      (omega arith) refl

generate_otp-read_example :
    (is_valid_otp_format (generate_otp draw) ≡ true)
    × (number_of 0 (codes (generate_otp draw)) ≡ 123456)
generate_otp-read_example = generate_otp-read draw draw-IsRandomInt
