-- ===== src/Auth/Sessions.antt =====
-- Tokens that are issued, and what the guards make of them later.
use be_lumbung_mesari.Prelude.{
  ℕ, ◌+◌, ◌<◌, ◌≡◌, refl, ap, ◌∙◌, some, String, find, Bool-cases, inl, inr, if◌then◌else◌,
}
use be_lumbung_mesari.Exec.{ok, err, unauthorized}
use be_lumbung_mesari.Db.{Db, User, UserRole}
use be_lumbung_mesari.Users.Repository.{has_id, find_user_by_id}
use be_lumbung_mesari.Users.Service.{find_user}
use be_lumbung_mesari.Auth.Tokens.{
  JwtPayload, Libraries, Secrets, UserDataToken, UserJwt, payload_of, access_token_expiry,
  refresh_token_expiry, generate_tokens, is_deactivated, validate, validate_refresh, behind_guard,
  handle_request, jwt_guard, jwt_refresh_guard, refreshed_user, refresh_token,
}

-- What jsonwebtoken promises: a token verifies, with its secret, until it expires.
abbrev pub IsJwt : Libraries → Type 0
IsJwt l =
    (issued lifetime now : ℕ) (secret : String) (payload : JwtPayload)
    → now < issued + lifetime
    → l.verify now secret (l.sign issued lifetime secret payload) ≡ some payload

-- The user of a request, from the row of the user.
abbrev pub request_user : User → UserJwt
request_user w = record {
  id = w.id;
  username = w.username;
  email = w.email;
  role = w.role_id;
  status = w.status;
}

-- The strategies, for a user who is stored.
module _ (payload : JwtPayload) (w : User) (s : Db)
    (known : find (has_id payload.sub) s.users ≡ some w) where
  pub validate-stored :
      handle_request (validate s payload)
      ≡ (if is_deactivated w.status then err unauthorized else ok (request_user w))
  unfolding validate find_user find_user_by_id
  validate-stored = elim (Bool-cases (is_deactivated w.status)) [
    | inl d ↦ rw (validate, find_user, find_user_by_id, known, d) refl
    | inr a ↦ rw (validate, find_user, find_user_by_id, known, a) refl
  ]

  abbrev refreshed : UserJwt
  refreshed = record {
    id = payload.sub;
    username = payload.username;
    email = payload.email;
    role = payload.role_id;
    status = w.status;
  }

  validate_refresh-stored : handle_request (validate_refresh s payload) ≡ ok refreshed
  unfolding validate_refresh find_user find_user_by_id
  validate_refresh-stored = rw (validate_refresh, find_user, find_user_by_id, known) refl

module _ (libraries : Libraries) (secrets : Secrets) (jwt : IsJwt libraries) where
  -- If jsonwebtoken verifies what it has signed until it expires: the access token of a user who is
  -- stored is accepted, until it expires, as the user that is stored now, with the role and the
  -- status of now, unless the user is inactive or rejected.
  pub jwt_guard-generate_tokens :
      (issued now : ℕ) (d : UserDataToken) (w : User) (s : Db)
      → now < issued + access_token_expiry d.status
      → find (has_id d.id) s.users ≡ some w
      → jwt_guard libraries secrets now s (generate_tokens libraries secrets issued d).access_token
        ≡ (if is_deactivated w.status then err unauthorized else ok (request_user w))
  unfolding jwt_guard generate_tokens
  jwt_guard-generate_tokens issued now d w s fresh known =
      let verified =
        jwt issued (access_token_expiry d.status) now secrets.jwt_secret (payload_of d) fresh in
      ap (λ o. behind_guard (validate s) o) verified ∙ validate-stored (payload_of d) w s known

  -- If jsonwebtoken verifies what it has signed until it expires: a refresh token of a user who is
  -- stored is accepted, until it expires, whatever the status is, and the new access token carries
  -- the role `member` in place of the user's.
  refresh_token-generate_tokens :
      (issued now : ℕ) (d : UserDataToken) (w : User) (s : Db)
      → now < issued + refresh_token_expiry
      → find (has_id d.id) s.users ≡ some w
      → (r : UserJwt) × (jwt_refresh_guard libraries secrets now s
            (generate_tokens libraries secrets issued d).refresh_token
          ≡ ok r)
        × (r.role ≡ (payload_of d).role_id)
        × ((later : ℕ)
            → later < now + access_token_expiry w.status
            → (p : JwtPayload) × (libraries.verify later secrets.jwt_secret
                  (refresh_token libraries secrets now r).access_token
                ≡ some p)
              × (p.role_id ≡ UserRole.member))
  unfolding jwt_refresh_guard refresh_token generate_tokens
  refresh_token-generate_tokens issued now d w s fresh known =
      let verified =
        jwt issued refresh_token_expiry now secrets.jwt_refresh_secret (payload_of d) fresh in
      let r = refreshed (payload_of d) w s known in
      (
        r,
        ap (λ o. behind_guard (validate_refresh s) o) verified
            ∙ validate_refresh-stored (payload_of d) w s known,
        refl,
        λ later valid. (
          payload_of (refreshed_user r),
          jwt now (access_token_expiry w.status) later secrets.jwt_secret
              (payload_of (refreshed_user r)) valid,
          refl,
        ),
      )
