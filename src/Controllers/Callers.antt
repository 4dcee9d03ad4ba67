-- ===== src/Controllers/Callers.antt =====
-- Who gets an answer from a route behind the guards.
use be_lumbung_mesari.Prelude.{
  ◌≡◌, refl, ap, ◌∙◌, Bool, true, false, not, if◌then◌else◌, some, List, find, Option-cases,
  Bool-cases, inl, inr,
}
use be_lumbung_mesari.Exec.{unauthorized, forbidden, Result, ok, err, Exec, with_result}
use be_lumbung_mesari.Calendar.{Clock}
use be_lumbung_mesari.Db.{Db, User, UserRole}
use be_lumbung_mesari.Users.Repository.{has_id, find_user_by_id}
use be_lumbung_mesari.Users.Service.{find_user}
use be_lumbung_mesari.Auth.Tokens.{
  JwtPayload, Libraries, Secrets, UserJwt, is_deactivated, validate, behind_guard, jwt_guard,
  can_activate, includes,
}
use be_lumbung_mesari.Auth.Sessions.{request_user, validate-stored}
use be_lumbung_mesari.Controllers.{guarded}
use be_lumbung_mesari.Controllers.Reads.{staff_roles}

abbrev pub is_answered {ℓ} : {A : Type ℓ} → Result A → Bool
is_answered (ok a) = true
is_answered (err e) = false

abbrev pub is_staff : UserRole → Bool
is_staff UserRole.member = false
is_staff _ = true

module _ (libraries : Libraries) (secrets : Secrets) (clock : Clock) (token : libraries.Token) where
  -- The token names a stored user who is neither inactive nor rejected and of whom this holds.
  abbrev pub IsReadBy : (User → Bool) → Db → Type 0
  IsReadBy allowed s =
      (p : JwtPayload) × (w : User) × (libraries.verify clock.instant secrets.jwt_secret token
        ≡ some p)
      × (find (has_id p.sub) s.users ≡ some w)
      × (is_deactivated w.status ≡ false)
      × (allowed w ≡ true)

  -- A handler behind the guard on roles.
  abbrev pub in_role : {A : Type 0} → List UserRole → (UserJwt → Exec Db A) → UserJwt → Db → Bool
  unfolding can_activate
  in_role roles handler user s =
      is_answered (with_result (can_activate roles user) (λ _. handler user) s).0

  module _ {A : Type 0} (roles : List UserRole) (handler : UserJwt → Exec Db A) (s : Db) where
    refused :
        jwt_guard libraries secrets clock.instant s token ≡ err unauthorized
        → is_answered (guarded libraries secrets clock token roles handler s).0 ≡ true
        → ⊥
    unfolding guarded
    refused h answer = cc (rw (guarded, h) at answer)

    found :
        {answer : Bool} (p : JwtPayload) (w : User)
        → libraries.verify clock.instant secrets.jwt_secret token ≡ some p
        → find (has_id p.sub) s.users ≡ some w
        → is_deactivated w.status ≡ answer
        → jwt_guard libraries secrets clock.instant s token
          ≡ (if answer then err unauthorized else ok (request_user w))
    unfolding jwt_guard validate
    found p w verified known h =
        ap (behind_guard (validate s)) verified
        ∙ validate-stored p w s known
        ∙ ap (λ b. if b then err unauthorized else ok (request_user w)) h

    handled :
        (user : UserJwt)
        → jwt_guard libraries secrets clock.instant s token ≡ ok user
        → is_answered (guarded libraries secrets clock token roles handler s).0 ≡ true
        → in_role roles handler user s ≡ true
    unfolding guarded
    handled user h answer = rw (guarded, h) at answer

    -- What a route answers was answered behind its guard on roles, for the stored user.
    pub answered_to :
        (allowed : User → Bool)
        → ((w : User) → in_role roles handler (request_user w) s ≡ true → allowed w ≡ true)
        → is_answered (guarded libraries secrets clock token roles handler s).0 ≡ true
        → IsReadBy allowed s
    unfolding jwt_guard validate find_user find_user_by_id
    answered_to allowed implies h =
        elim (Option-cases (libraries.verify clock.instant secrets.jwt_secret token)) [
          | inl forged ↦ absurd (refused (rw (jwt_guard, forged) refl) h)
          | inr (p, verified) ↦ elim (Option-cases (find (has_id p.sub) s.users)) [
            | inl missing ↦ absurd (
                refused
                  (rw (jwt_guard, verified, validate, find_user, find_user_by_id, missing) refl) h)
            | inr (w, known) ↦ elim (Bool-cases (is_deactivated w.status)) [
              | inl gone ↦ absurd (refused (found p w verified known gone) h)
              | inr active ↦
                  let by = handled (request_user w) (found p w verified known active) h in
                  (p, w, verified, known, active, implies w by)
            ]
          ]
        ]

  -- What is for administrators is answered to them alone.
  pub for_staff :
      {A : Type 0} (handler : UserJwt → Exec Db A) (s : Db)
      → is_answered (guarded libraries secrets clock token staff_roles handler s).0 ≡ true
      → IsReadBy (λ w. is_staff w.role_id) s
  unfolding can_activate
  for_staff handler s h =
      answered_to staff_roles handler s (λ w. is_staff w.role_id)
        (λ w a. granted w.role_id (λ role. handler (record (request_user w) { role = role })) a) h
    where
      granted :
          {A : Type 0} (role : UserRole) (m : UserRole → Exec Db A)
          → is_answered
              (with_result
                (if not (includes staff_roles role) then err forbidden else ok true)
                (λ _. m role)
                s).0
            ≡ true
          → is_staff role ≡ true
      granted UserRole.administrator m a = refl
      granted UserRole.superadministrator m a = refl
      granted UserRole.member m a = absurd (cc a)
