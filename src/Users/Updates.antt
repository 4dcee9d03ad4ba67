-- ===== src/Users/Updates.antt =====
-- What the update of a user's columns does.
use be_lumbung_mesari.Prelude.{
  ℕ, ◌≡◌, refl, none, some, ==_iff, find, find-update_other, update_where, ap, sym, Bool, true,
  false, if◌then◌else◌, ◌||◌, Option-cases, inl, inr,
}
use be_lumbung_mesari.Exec.{Result, ok, err, database, duplicate_key, ok-injective}
use be_lumbung_mesari.Db.{Db, User}
use be_lumbung_mesari.Users.Repository.{
  UpdateUserEntity, has_id, set_user, find_user_by_id, update_user, is_taken,
}
use be_lumbung_mesari.Users.Service.{update}

-- The columns of one user are set, and nothing else changes.
pub record IsUpdated (id : ℕ) (changes : UpdateUserEntity) (s : Db) (u' : User) (s' : Db)
    : Type 0 where
  pub user : User
  pub known : find (has_id id) s.users ≡ some user
  pub result : u' ≡ set_user changes user
  pub rest : s' ≡ record s { users = update_where (has_id id) (set_user changes) s.users }

-- A choice that did not throw.
unless :
    (b : Bool) (v u' : User) (t s' : Db)
    → if◌then◌else◌ {A = Result (User × Db)} b (err (database duplicate_key)) (ok (v, t))
      ≡ ok (u', s')
    → (u' ≡ v) × (s' ≡ t)
unless true v u' t s' h = cc
unless false v u' t s' h = let e = ok-injective h in (sym (ap (λ p. p.0) e), sym (ap (λ p. p.1) e))

update_user-IsUpdated :
    (id : ℕ) (changes : UpdateUserEntity) (s : Db) (u' : User) (s' : Db)
    → update_user id changes s ≡ ok (u', s')
    → IsUpdated id changes s u' s'
unfolding update_user
update_user-IsUpdated id changes s u' s' h = elim (Option-cases (find (has_id id) s.users)) [
  | inl missing ↦ absurd (cc (rw (update_user, missing) at h))
  | inr (u, known) ↦
      let h' = rw (update_user, known) at h in
      let facts =
        unless
          (is_taken (λ x. x.email) id changes.email s.users
            || is_taken (λ x. x.username) id changes.username s.users)
          _ _ _ _ h' in
      record { user = u; known = known; result = facts.0; rest = facts.1 }
]

pub update-IsUpdated :
    (id : ℕ) (changes : UpdateUserEntity) (s : Db) (u' : User) (s' : Db)
    → update id changes s ≡ ok (u', s')
    → IsUpdated id changes s u' s'
unfolding update
update-IsUpdated id changes s u' s' h = elim (Option-cases (find_user_by_id id s)) [
  | inl missing ↦ absurd (cc (rw (update, missing) at h))
  | inr (u, known) ↦ update_user-IsUpdated id changes s u' s' (rw (update, known) at h)
]

-- An update of other columns than the unique ones goes through for a user who is there.
pub update-goes :
    (id : ℕ) (changes : UpdateUserEntity) (s : Db) (w : User)
    → changes.email ≡ none
    → changes.username ≡ none
    → find (has_id id) s.users ≡ some w
    → update id changes s
      ≡ ok (
        set_user changes w,
        record s { users = update_where (has_id id) (set_user changes) s.users },
      )
unfolding update update_user find_user_by_id
update-goes id changes s w e n known =
    rw (update, find_user_by_id, known, update_user, known, e, n) refl

-- What was found without looking at the columns that are set is found with them set.
pub find-set_user :
    (test : User → Bool) (id : ℕ) (changes : UpdateUserEntity) (s : Db) (v : User)
    → ((x : User) → test (set_user changes x) ≡ test x)
    → find test s.users ≡ some v
    → v.id ≡ id
    → find test (update_where (has_id id) (set_user changes) s.users) ≡ some (set_user changes v)
find-set_user test id changes s v keep found same =
    find-update_other test (has_id id) (set_user changes) keep s.users v found
      ((==_iff v.id id).1 same)
