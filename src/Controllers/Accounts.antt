-- ===== src/Controllers/Accounts.antt =====
-- The routes of src/auth/auth.controller.ts that write.
use be_lumbung_mesari.Prelude.{ℤ, Bool, [], String}
use be_lumbung_mesari.Exec.{Exec}
use be_lumbung_mesari.Calendar.{Clock}
use be_lumbung_mesari.Db.{Db}
use be_lumbung_mesari.Auth.Tokens.{Libraries, Secrets}
use be_lumbung_mesari.Auth.Service.{
  Call, Session, RegisterDto, register, login, verify_otp, resend_otp, request_password_reset,
  confirm_password_reset,
}
use be_lumbung_mesari.Controllers.{guarded, catching, only_http}

-- Open to all.
module _ (libraries : Libraries) (secrets : Secrets) (call : Call) where
  unfoldable pub login_route : String → String → Exec Db (Session libraries.Token)
  unfolding login
  login_route identifier password =
      catching only_http (login libraries secrets call identifier password)

  unfoldable pub register_route : RegisterDto → Exec Db (Session libraries.Token)
  unfolding register
  register_route dto = register libraries secrets call dto

  unfoldable pub confirm_password_reset_route : String → String → String → Exec Db Unit
  unfolding confirm_password_reset
  confirm_password_reset_route token new_password confirm_password =
      catching only_http (confirm_password_reset libraries call token new_password confirm_password)

unfoldable pub request_password_reset_route : Call → String → Exec Db Unit
unfolding request_password_reset
request_password_reset_route call email = request_password_reset call email

-- For whoever has a token.
module _ (libraries : Libraries) (secrets : Secrets) (clock : Clock) (token : libraries.Token)
    (call : Call) where
  unfoldable pub verify_otp_route : ℤ → String → Exec Db (Session libraries.Token)
  unfolding guarded verify_otp
  verify_otp_route configured otp_code =
      guarded libraries secrets clock token []
        (λ user. catching only_http (verify_otp libraries secrets configured call user.id otp_code))

  unfoldable pub resend_otp_route : Exec Db Bool
  unfolding guarded resend_otp
  resend_otp_route =
      guarded libraries secrets clock token []
        (λ user. catching only_http (resend_otp call user.id))
