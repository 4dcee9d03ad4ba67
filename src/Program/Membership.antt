-- ===== src/Program/Membership.antt =====
-- The methods on users and their accounts leave what is kept, whether they return or throw.
use be_lumbung_mesari.Prelude.{ℕ, ℤ, refl, Bool, String, Option-cases, Bool-cases, inl, inr}
use be_lumbung_mesari.Exec.{ok, Result-cases, transaction}
use be_lumbung_mesari.Exec.Keeps.{
  Leaves, and_read-Leaves, ok-Preserves, transaction-Leaves, method_rules,
}
use be_lumbung_mesari.Calendar.{Clock}
use be_lumbung_mesari.Db.{Db, User}
use be_lumbung_mesari.Users.Repository.{find_by_email}
use be_lumbung_mesari.Users.Service.{update, approve_user, reject_user}
use be_lumbung_mesari.Auth.Tokens.{Libraries, Secrets, is_pending_user}
use be_lumbung_mesari.Auth.Service.{
  Call, RegisterDto, new_otp, new_reset, session, open_session, register, login, verify_otp,
  resend_otp, request_password_reset, confirm_password_reset,
}
use be_lumbung_mesari.Program.{Env}
use be_lumbung_mesari.Program.Kept.{IsKept}

module _ (env : Env) (P : Db → Type 0) (kept : IsKept env P) where
  pub approve_user-Leaves :
      (clock : Clock) (mailed : Bool) (id admin_id : ℕ)
      → Leaves P (approve_user clock mailed id admin_id)
  unfolding approve_user
  approve_user-Leaves clock mailed id admin_id =
      let keeps = kept.approve_user in search (method_rules, keeps)

  pub reject_user-Leaves : (mailed : Bool) (id : ℕ) → Leaves P (reject_user mailed id)
  unfolding reject_user
  reject_user-Leaves mailed id = let keeps = kept.reject_user in search (method_rules, keeps)

  pub resend_otp-Leaves : (call : Call) (id : ℕ) → Leaves P (resend_otp call id)
  unfolding resend_otp
  resend_otp-Leaves call id = let keeps = kept.update_user in search (method_rules, keeps) depth 8

  open_session-Leaves :
      (libraries : Libraries) (secrets : Secrets) (call : Call) (user : User)
      → Leaves P (open_session libraries secrets call user)
  open_session-Leaves libraries secrets call user = record {
    holds = λ s h. elim (Bool-cases (is_pending_user user.status)) [
      | inr f ↦ rw (f, open_session) h
      | inl t ↦
          rw (t, open_session)
            ((and_read-Leaves (transaction (update user.id (new_otp call)))
                (λ _ _. ok (session libraries secrets call.now call.mailed user))
                (transaction-Leaves (update user.id (new_otp call))
                  (kept.update_user user.id (new_otp call) refl))).holds
              s h)
    ];
  }

  pub login-Leaves :
      (libraries : Libraries) (secrets : Secrets) (call : Call) (identifier password : String)
      → Leaves P (login libraries secrets call identifier password)
  unfolding login
  login-Leaves libraries secrets call identifier password =
      search (method_rules, open_session-Leaves)

  pub register-Leaves :
      (libraries : Libraries) (secrets : Secrets) (call : Call) (dto : RegisterDto)
      → Leaves P (register libraries secrets call dto)
  unfolding register
  register-Leaves libraries secrets call dto =
      let keeps = kept.create_user in search (method_rules, keeps)

  pub verify_otp-Leaves :
      (libraries : Libraries) (secrets : Secrets) (configured : ℤ) (call : Call) (id : ℕ)
      (otp_code : String)
      → Leaves P (verify_otp libraries secrets configured call id otp_code)
  unfolding verify_otp
  verify_otp-Leaves libraries secrets configured call id otp_code =
      let keeps = kept.verify_user in search (method_rules, keeps) depth 12

  pub confirm_password_reset-Leaves :
      (libraries : Libraries) (call : Call) (token password confirmation : String)
      → Leaves P (confirm_password_reset libraries call token password confirmation)
  unfolding confirm_password_reset
  confirm_password_reset-Leaves libraries call token password confirmation =
      let keeps = kept.update_user in search (method_rules, keeps) depth 8

  pub request_password_reset-Leaves :
      (call : Call) (email : String) → Leaves P (request_password_reset call email)
  unfolding request_password_reset
  request_password_reset-Leaves call email = record {
    holds = λ s h. elim (Option-cases (find_by_email email s)) [
      | inl e ↦ rw (e, request_password_reset) h
      | inr (user, e) ↦ elim (Result-cases (update user.id (new_reset call) s)) [
        | inr (x, failed) ↦ rw (e, failed, request_password_reset) h
        | inl ((w, t), went) ↦
            rw (e, went, request_password_reset)
              (ok-Preserves (kept.update_user user.id (new_reset call) refl) s w t h went)
      ]
    ];
  }
