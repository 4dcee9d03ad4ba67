-- ===== src/Program/Roles.antt =====
-- Who may change the state through the requests that carry a token.
use be_lumbung_mesari.Prelude.{
  ◌≡◌, refl, ap, ◌∙◌, Bool, true, false, not, some, if◌then◌else◌, List, [], ◌∷◌, find,
  Option-cases, Bool-cases, inl, inr,
}
use be_lumbung_mesari.Exec.{Error, unauthorized, forbidden, ok, err, Exec, reject_if}
use be_lumbung_mesari.Calendar.{Clock}
use be_lumbung_mesari.Db.{Db, User, UserRole, UserStatus}
use be_lumbung_mesari.Users.Repository.{has_id, find_user_by_id}
use be_lumbung_mesari.Users.Service.{find_user, approve_user, reject_user}
use be_lumbung_mesari.Auth.Tokens.{
  JwtPayload, behind_guard, UserJwt, is_deactivated, validate, jwt_guard, includes, can_activate,
}
use be_lumbung_mesari.Auth.Sessions.{request_user, validate-stored}
use be_lumbung_mesari.Auth.Service.{verify_otp, resend_otp}
use be_lumbung_mesari.Loans.Application.{create_loan, approve_loan, reject_loan}
use be_lumbung_mesari.Loans.Service.{disburse_loan, settle_installment}
use be_lumbung_mesari.Savings.Service.{settle_mandatory_savings, generate_remaining_year_savings}
use be_lumbung_mesari.Expenses.{create_expense, update_expense, delete_expense}
use be_lumbung_mesari.Controllers.{
  is_active_user, only_http, warned, unexpected_as_internal, catching, guarded, create_loan_route,
  approve_loan_route, reject_loan_route, disburse_loan_route, settle_installment_route,
  approve_user_route, reject_user_route, settle_mandatory_savings_route,
  generate_remaining_year_route,
}
use be_lumbung_mesari.Controllers.Expenses.{
  create_expense_route, update_expense_route, delete_expense_route,
}
use be_lumbung_mesari.Controllers.Accounts.{verify_otp_route, resend_otp_route}
use be_lumbung_mesari.Program.{Env, Request, serve}

-- Loans are decided and paid out by superadministrators; a loan, a verification and a new password
-- are asked for by anyone; the rest is for administrators too.
abbrev pub may : Request → UserRole → Bool
may _ UserRole.superadministrator = true
may (Request.approves_loan _ _) UserRole.administrator = false
may (Request.rejects_loan _ _) UserRole.administrator = false
may (Request.disburses_loan _) UserRole.administrator = false
may _ UserRole.administrator = true
may (Request.creates_loan _) UserRole.member = true
may (Request.verifies_otp _ _) UserRole.member = true
may (Request.resends_otp _) UserRole.member = true
may _ UserRole.member = false

abbrev chiefs : List UserRole
chiefs = UserRole.superadministrator ∷ []

abbrev staff : List UserRole
staff = UserRole.administrator ∷ UserRole.superadministrator ∷ []

-- What a route that asks for these roles lets through: everyone, if it asks for none.
abbrev grants : List UserRole → UserRole → Bool
grants [] role = true
grants (r ∷ rs) role = includes (r ∷ rs) role

module _ (r : Request) where
  wider_chiefs : (role : UserRole) → grants chiefs role ≡ true → may r role ≡ true
  wider_chiefs UserRole.superadministrator t = refl
  wider_chiefs UserRole.administrator t = absurd (cc t)
  wider_chiefs UserRole.member t = absurd (cc t)

  wider_staff :
      may r UserRole.administrator ≡ true
      → (role : UserRole) → grants staff role ≡ true
      → may r role ≡ true
  wider_staff too UserRole.superadministrator t = refl
  wider_staff too UserRole.administrator t = too
  wider_staff too UserRole.member t = absurd (cc t)

  allows_all :
      may r UserRole.administrator ≡ true
      → may r UserRole.member ≡ true
      → (role : UserRole) → grants [] role ≡ true
      → may r role ≡ true
  allows_all staff_too members_too UserRole.superadministrator t = refl
  allows_all staff_too members_too UserRole.administrator t = staff_too
  allows_all staff_too members_too UserRole.member t = members_too

module _ (env : Env) (clock : Clock) (token : env.libraries.Token) where
  open env use {libraries, secrets}

  -- The token names a stored user who is neither inactive nor rejected and has such a role.
  abbrev pub IsCalledBy : (UserRole → Bool) → Db → Type 0
  IsCalledBy allowed s =
      (p : JwtPayload) × (w : User) × (libraries.verify clock.instant secrets.jwt_secret token
        ≡ some p)
      × (find (has_id p.sub) s.users ≡ some w)
      × (is_deactivated w.status ≡ false)
      × (allowed w.role_id ≡ true)

  -- What the guard makes of a token that verifies, by the status that is stored.
  found :
      {answer : Bool} (p : JwtPayload) (w : User) (s : Db)
      → libraries.verify clock.instant secrets.jwt_secret token ≡ some p
      → find (has_id p.sub) s.users ≡ some w
      → is_deactivated w.status ≡ answer
      → jwt_guard libraries secrets clock.instant s token
        ≡ (if answer then err unauthorized else ok (request_user w))
  unfolding jwt_guard validate
  found p w s verified known h =
      ap (behind_guard (validate s)) verified
      ∙ validate-stored p w s known
      ∙ ap (λ b. if b then err unauthorized else ok (request_user w)) h

  module _ {A : Type 0} (handler : UserJwt → Exec Db A) (s : Db) where
    refused :
        (e : Error) (roles : List UserRole)
        → jwt_guard libraries secrets clock.instant s token ≡ err e
        → (guarded libraries secrets clock token roles handler s).1 ≡ s
    unfolding guarded
    refused e roles h = rw (guarded, h) refl

    refused_role :
        (user : UserJwt) (role : UserRole) (roles : List UserRole)
        → jwt_guard libraries secrets clock.instant s token ≡ ok user
        → includes (role ∷ roles) user.role ≡ false
        → (guarded libraries secrets clock token (role ∷ roles) handler s).1 ≡ s
    unfolding guarded can_activate
    refused_role user role roles h lacks = rw (guarded, h, can_activate, lacks) refl

    changed_by_user :
        (p : JwtPayload) (w : User) (roles : List UserRole)
        → libraries.verify clock.instant secrets.jwt_secret token ≡ some p
        → find (has_id p.sub) s.users ≡ some w
        → is_deactivated w.status ≡ false
        → ¬ ((guarded libraries secrets clock token roles handler s).1 ≡ s)
        → IsCalledBy (grants roles) s
    changed_by_user p w [] verified known active h = (p, w, verified, known, active, refl)
    changed_by_user p w (role ∷ roles) verified known active h =
        elim (Bool-cases (includes (role ∷ roles) w.role_id)) [
          | inl has ↦ (p, w, verified, known, active, has)
          | inr lacks ↦ absurd (
              h (
                refused_role (request_user w) role roles (found p w s verified known active) lacks))
        ]

    changed :
        (roles : List UserRole)
        → ¬ ((guarded libraries secrets clock token roles handler s).1 ≡ s)
        → IsCalledBy (grants roles) s
    unfolding jwt_guard validate find_user find_user_by_id
    changed roles h =
        elim (Option-cases (libraries.verify clock.instant secrets.jwt_secret token)) [
          | inl forged ↦ absurd (h (refused unauthorized roles (rw (jwt_guard, forged) refl)))
          | inr (p, verified) ↦ elim (Option-cases (find (has_id p.sub) s.users)) [
            | inl missing ↦ absurd (
                h (
                  refused unauthorized roles
                    (rw (jwt_guard, verified, validate, find_user, find_user_by_id, missing) refl)))
            | inr (w, known) ↦ elim (Bool-cases (is_deactivated w.status)) [
              | inl gone ↦ absurd (h (refused unauthorized roles (found p w s verified known gone)))
              | inr active ↦ changed_by_user p w roles verified known active h
            ]
          ]
        ]

    -- The same, for a request whose roles are among those of a route.
    changed_through :
        (roles : List UserRole) (r : Request)
        → ((role : UserRole) → grants roles role ≡ true → may r role ≡ true)
        → ¬ ((guarded libraries secrets clock token roles handler s).1 ≡ s)
        → IsCalledBy (may r) s
    changed_through roles r wider h =
        let (p, w, verified, known, active, has) = changed roles h in
        (p, w, verified, known, active, wider w.role_id has)

  -- A request with a token changes the state only when the token verifies and names a stored user
  -- who is neither inactive nor rejected, and whose stored role may send it: anyone for a loan, a
  -- verification and a new one-time password; a superadministrator for the decision and the
  -- disbursement of a loan; an administrator or a superadministrator for the rest.
  pub changed_by_caller :
      (r : Request) (s : Db) → ¬ (serve env clock token r s ≡ s) → IsCalledBy (may r) s
  unfolding serve create_loan_route approve_loan_route reject_loan_route disburse_loan_route
      settle_installment_route approve_user_route reject_user_route settle_mandatory_savings_route
      generate_remaining_year_route create_expense_route update_expense_route delete_expense_route
      verify_otp_route resend_otp_route
  changed_by_caller (Request.creates_loan dto) s h =
      changed_through
        (λ user.
          reject_if (not (is_active_user user.status)) forbidden
            (create_loan env.store env.admin_fee_rate clock.date user.id dto))
        s [] (Request.creates_loan dto) (allows_all (Request.creates_loan dto) refl refl) h
  changed_by_caller (Request.approves_loan id notes) s h =
      changed_through (λ admin. approve_loan clock.date id notes admin.id) s chiefs
        (Request.approves_loan id notes) (wider_chiefs (Request.approves_loan id notes)) h
  changed_by_caller (Request.rejects_loan id reason) s h =
      changed_through (λ admin. reject_loan clock.date id reason) s chiefs
        (Request.rejects_loan id reason) (wider_chiefs (Request.rejects_loan id reason)) h
  changed_by_caller (Request.disburses_loan id) s h =
      changed_through (λ admin. disburse_loan clock id admin.id) s chiefs
        (Request.disburses_loan id) (wider_chiefs (Request.disburses_loan id)) h
  changed_by_caller (Request.settles_installment id) s h =
      changed_through (λ admin. settle_installment clock id admin.id) s staff
        (Request.settles_installment id) (wider_staff (Request.settles_installment id) refl) h
  changed_by_caller (Request.approves_user mailed id) s h =
      changed_through
        (λ admin. catching (warned UserStatus.active id) (approve_user clock mailed id admin.id)) s
        staff (Request.approves_user mailed id) (wider_staff (Request.approves_user mailed id) refl)
        h
  changed_by_caller (Request.rejects_user mailed id) s h =
      changed_through
        (λ admin. catching (warned UserStatus.waiting_deposit id) (reject_user mailed id)) s staff
        (Request.rejects_user mailed id) (wider_staff (Request.rejects_user mailed id) refl) h
  changed_by_caller (Request.settles_savings id) s h =
      changed_through
        (λ admin. catching unexpected_as_internal (settle_mandatory_savings clock id admin.id)) s
        staff (Request.settles_savings id) (wider_staff (Request.settles_savings id) refl) h
  changed_by_caller Request.generates_savings s h =
      changed_through
        (λ admin t.
          (ok tt, generate_remaining_year_savings env.mandatory_savings_amount clock.date t))
        s staff Request.generates_savings (wider_staff Request.generates_savings refl) h
  changed_by_caller (Request.creates_expense dto) s h =
      changed_through (λ user. catching only_http (create_expense clock.instant dto user.id)) s
        staff (Request.creates_expense dto) (wider_staff (Request.creates_expense dto) refl) h
  changed_by_caller (Request.updates_expense id dto) s h =
      changed_through (λ user. catching only_http (update_expense clock.instant id dto)) s staff
        (Request.updates_expense id dto) (wider_staff (Request.updates_expense id dto) refl) h
  changed_by_caller (Request.deletes_expense id) s h =
      changed_through (λ user. catching only_http (delete_expense clock.instant id)) s staff
        (Request.deletes_expense id) (wider_staff (Request.deletes_expense id) refl) h
  changed_by_caller (Request.verifies_otp call code) s h =
      changed_through
        (λ user.
          catching only_http
            (verify_otp libraries secrets env.principal_savings_amount call user.id code))
        s [] (Request.verifies_otp call code)
        (allows_all (Request.verifies_otp call code) refl refl) h
  changed_by_caller (Request.resends_otp call) s h =
      changed_through (λ user. catching only_http (resend_otp call user.id)) s []
        (Request.resends_otp call) (allows_all (Request.resends_otp call) refl refl) h
