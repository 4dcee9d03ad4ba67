-- ===== src/Auth/Credentials.antt =====
-- The password that a user registers or resets is the one that logs in.
use text.Mathlib.TextPositions.{eq_refl}
use be_lumbung_mesari.Prelude.{
  ◌+◌, ◌≡◌, refl, sym, ap, ◌∙◌, subst, true, some, List, String, str_eq, find, find-test, ==_refl,
  ==_iff, ◌∷◌, ◌||◌, ◌&&◌, arith, Bool-cases, inl, inr, ◌⊎◌,
}
use be_lumbung_mesari.Exec.{ok, commits, answered, >>-eq-ok}
use be_lumbung_mesari.Db.{Db, User, UserStatus}
use be_lumbung_mesari.Users.Repository.{
  has_id, set_user, insert_user, find_by_identifier_with_role, find_by_reset_token,
}
use be_lumbung_mesari.Users.Service.{
  CreatedUser, row_of, create_user, update, validate_user_uniqueness,
}
use be_lumbung_mesari.Users.Updates.{update-IsUpdated, update-goes, find-set_user}
use be_lumbung_mesari.Auth.Tokens.{Libraries, Secrets, is_pending_user}
use be_lumbung_mesari.Auth.Service.{
  Call, Session, session, RegisterDto, registered, register, login, open_session, new_otp,
  confirm_password_reset, new_password, is_reset_expired,
}

-- What bcrypt promises: a password matches its hash.
abbrev pub IsBcrypt : Libraries → Type 0
IsBcrypt l = (salt password : String) → l.compare password (l.hash salt password) ≡ true

-- The checks of uniqueness change nothing.
validated :
    (email username : String) (s s₁ : Db)
    → validate_user_uniqueness email username s ≡ ok (tt, s₁)
    → s₁ ≡ s
unfolding validate_user_uniqueness
validated email username s s₁ h = ground arith

insert_user-ok :
    (row : User) (s : Db) (u : User) (s' : Db)
    → insert_user row s ≡ ok (u, s')
    → (u ≡ record row { id = s.next_id })
      × (s' ≡ record s { users = u ∷ s.users; next_id = s.next_id + 1 })
unfolding insert_user
insert_user-ok row s u s' h = ground arith

-- A created user: the new row, in front of the others.
pub create_user-ok :
    (user : CreatedUser) (s : Db) (u : User) (s' : Db)
    → create_user user s ≡ ok (u, s')
    → (u ≡ record (row_of user) { id = s.next_id })
      × (s' ≡ record s { users = u ∷ s.users; next_id = s.next_id + 1 })
unfolding create_user insert_user
create_user-ok user s u s' h =
    let ((_, s₁), e₁, h₁) =
      >>-eq-ok (validate_user_uniqueness user.email user.username) (insert_user (row_of user)) s
        (u, s') h in
    let same = validated user.email user.username s s₁ e₁ in
    insert_user-ok (row_of user) s u s' (rw same at h₁)

-- The newest user is found by e-mail and by username.
newest :
    (u : User) (users : List User) (identifier : String)
    → (identifier ≡ u.email) ⊎ (identifier ≡ u.username)
    → find (λ x. str_eq x.email identifier || str_eq x.username identifier) (u ∷ users) ≡ some u
newest u users identifier (inl e) = rw (e, eq_refl) refl
newest u users identifier (inr e) = elim (Bool-cases (str_eq u.email identifier)) [
  | inl t ↦ rw t refl
  | inr f ↦ rw (f, e, eq_refl) refl
]

-- The update of a password reset that went through.
reset-went :
    (libraries : Libraries) (call : Call) (token password confirmation : String) (s s' : Db)
    (v : User)
    → find_by_reset_token token s ≡ some v
    → confirm_password_reset libraries call token password confirmation s ≡ (ok tt, s')
    → (u : User) × (update v.id (new_password libraries call password) s ≡ ok (u, s'))
unfolding confirm_password_reset
reset-went libraries call token password confirmation s s' v holder h =
    elim (Bool-cases (str_eq password confirmation)) [
      | inr differs ↦ absurd (cc (rw (confirm_password_reset, differs) at h))
      | inl same ↦ elim (Bool-cases (is_reset_expired call.now v.password_reset_expires_at)) [
        | inl past ↦ absurd (cc (rw (confirm_password_reset, same, holder, past) at h))
        | inr valid ↦
            let (u, went, _) =
              answered (update v.id (new_password libraries call password)) (λ _ _. ok tt) s tt s'
                (rw (confirm_password_reset, same, holder, valid) at h) in
            (u, went)
      ]
    ]

module _ (libraries : Libraries) (secrets : Secrets) where
  -- A user who is found and whose password matches gets a session.
  login-opens :
      (call : Call) (identifier password : String) (s : Db) (v w : User)
      → find_by_identifier_with_role identifier s ≡ some v
      → find (has_id v.id) s.users ≡ some w
      → libraries.compare password v.password ≡ true
      → (login libraries secrets call identifier password s).0
        ≡ ok (session libraries secrets call.now (is_pending_user v.status && call.mailed) v)
  unfolding login
  login-opens call identifier password s v w found known matches =
      elim (Bool-cases (is_pending_user v.status)) [
        | inr n ↦ rw (found, matches, open_session, n) refl
        | inl p ↦
            let m =
              commits (update v.id (new_otp call))
                (λ _ _. ok (session libraries secrets call.now call.mailed v)) s _ _
                (update-goes v.id (new_otp call) s w refl refl known) in
            rw (found, matches, open_session, p) (ap (λ r. r.0) m)
      ]

  -- A login of the user who has just been created.
  login-newest :
      IsBcrypt libraries
      → (call : Call) (dto : RegisterDto) (s : Db) (u : User) (s' : Db)
      → u ≡ record (row_of (registered libraries call dto)) { id = s.next_id }
      → s' ≡ record s { users = u ∷ s.users; next_id = s.next_id + 1 }
      → (later : Call) (identifier : String)
      → (identifier ≡ dto.email) ⊎ (identifier ≡ dto.username)
      → (login libraries secrets later identifier dto.password s').0
        ≡ ok (session libraries secrets later.now later.mailed u)
  unfolding find_by_identifier_with_role
  login-newest bcrypt call dto s u s' row rest later identifier which =
      let status : u.status ≡ UserStatus.pending = ap (λ (z : User). z.status) row in
      let email : u.email ≡ dto.email = ap (λ (z : User). z.email) row in
      let username : u.username ≡ dto.username = ap (λ (z : User). z.username) row in
      let users : s'.users ≡ u ∷ s.users = ap (λ (z : Db). z.users) rest in
      let found : find_by_identifier_with_role identifier s' ≡ some u =
        subst
          (λ us. find (λ x. str_eq x.email identifier || str_eq x.username identifier) us ≡ some u)
          (sym users) (newest u s.users identifier (rw (email, username) which)) in
      let known : find (has_id u.id) s'.users ≡ some u = rw (users, ==_refl) refl in
      let matches : libraries.compare dto.password u.password ≡ true =
        rw row (bcrypt call.salt dto.password) in
      let opened = login-opens later identifier dto.password s' u u found known matches in
      opened
      ∙ ap (λ st. ok (session libraries secrets later.now (is_pending_user st && later.mailed) u))
          status

  -- The user that a registration has created.
  pub register-ok :
      (call : Call) (dto : RegisterDto) (s : Db) (x : Session libraries.Token) (s' : Db)
      → register libraries secrets call dto s ≡ (ok x, s')
      → (u : User) × (u ≡ record (row_of (registered libraries call dto)) { id = s.next_id })
        × (s' ≡ record s { users = u ∷ s.users; next_id = s.next_id + 1 })
  unfolding register
  register-ok call dto s x s' h =
      elim (Bool-cases (str_eq dto.password dto.password_confirmation)) [
        | inr differs ↦ absurd (cc (rw (register, differs) at h))
        | inl same ↦
            let (u, went, _) =
              answered (create_user (registered libraries call dto))
                (λ user _. ok (session libraries secrets call.now call.mailed user)) s x s'
                (rw (register, same) at h) in
            let (row, rest) = create_user-ok (registered libraries call dto) s u s' went in
            (u, row, rest)
      ]

  -- After a registration that went through, a login with its password and with its e-mail or its
  -- username goes through, and opens a session of the pending user; bcrypt is taken to match a
  -- password with its hash.
  pub register-login :
      IsBcrypt libraries
      → (call : Call) (dto : RegisterDto) (s : Db) (x : Session libraries.Token) (s' : Db)
      → register libraries secrets call dto s ≡ (ok x, s')
      → (later : Call) (identifier : String)
      → (identifier ≡ dto.email) ⊎ (identifier ≡ dto.username)
      → (u : User) × (u.email ≡ dto.email)
        × (u.status ≡ UserStatus.pending)
        × ((login libraries secrets later identifier dto.password s').0
            ≡ ok (session libraries secrets later.now later.mailed u))
  register-login bcrypt call dto s x s' h later identifier which =
      let (u, row, rest) = register-ok call dto s x s' h in
      (
        u,
        ap (λ (z : User). z.email) row,
        ap (λ (z : User). z.status) row,
        login-newest bcrypt call dto s u s' row rest later identifier which,
      )

  -- After a password reset that went through, a login with the new password goes through for each
  -- identifier that finds the user of the reset token, whose status is as before; bcrypt is taken
  -- to match a password with its hash.
  pub confirm_password_reset-login :
      IsBcrypt libraries
      → (call : Call) (token password confirmation : String) (s s' : Db)
      → confirm_password_reset libraries call token password confirmation s ≡ (ok tt, s')
      → (identifier : String) (v : User) → find_by_identifier_with_role identifier s ≡ some v
      → find_by_reset_token token s ≡ some v
      → (later : Call)
      → (u : User) × (u.id ≡ v.id)
        × (u.status ≡ v.status)
        × ((login libraries secrets later identifier password s').0
            ≡ ok (session libraries secrets later.now (is_pending_user u.status && later.mailed) u))
  unfolding confirm_password_reset find_by_identifier_with_role
  confirm_password_reset-login bcrypt call token password confirmation s s' h identifier v found
        holder later =
      let changes = new_password libraries call password in
      let (u', went) = reset-went libraries call token password confirmation s s' v holder h in
      let f = update-IsUpdated v.id changes s u' s' went in
      let again : find_by_identifier_with_role identifier s' ≡ some (set_user changes v) =
        rw f.rest (
          find-set_user (λ x. str_eq x.email identifier || str_eq x.username identifier) v.id
            changes s v (λ x. refl) found refl) in
      let known : find (has_id v.id) s'.users ≡ some (set_user changes f.user) = rw f.rest (
        find-set_user (has_id v.id) v.id changes s f.user (λ x. refl) f.known
          ((==_iff _ _).0 (find-test (has_id v.id) s.users f.user f.known))) in
      (
        set_user changes v,
        refl,
        refl,
        login-opens later identifier password s' (set_user changes v) (set_user changes f.user)
            again known (bcrypt call.salt password),
      )
