-- ===== src/Users/Listing.antt =====
-- The list of users: `findAllUsers` (src/users/users.repository.ts) and `findAllWithPagination`
-- (src/users/users.service.ts). `ilike` is PostgreSQL's test for a text inside another and `before`
-- the order that `sortBy` and `sortOrder` name.
use be_lumbung_mesari.Prelude.{
  ℕ, ◌==◌, leb, Bool, true, false, ◌&&◌, ◌||◌, Option, none, some, List, [], ◌∷◌, String, map,
  select, if◌then◌else◌,
}
use be_lumbung_mesari.Db.{Db, User, UserStatus, UserRole}
use be_lumbung_mesari.Pagination.{PaginationResult, order_by, paginate}
use be_lumbung_mesari.Auth.Otp.{codes}

-- Without defaults: what is missing in the request is `none`.
pub record ListUsersQuery : Type 0 where
  pub role : Option String
  pub status : Option UserStatus
  pub search : Option String
  pub page : Option ℕ
  pub limit : Option ℕ

abbrev pub or_default : ℕ → Option ℕ → ℕ
or_default d none = d
or_default d (some n) = n

-- `text.split(',')`, by code points
abbrev pub split : ℕ → List ℕ → List (List ℕ)
split c [] = [] ∷ []
split c (x ∷ xs) =
    let rest = split c xs in
    elim rest [ [] ↦ [] | w ∷ ws ↦ if x == c then [] ∷ w ∷ ws else (x ∷ w) ∷ ws ]

-- White space, as far as it is ASCII.
abbrev is_white : ℕ → Bool
is_white c = c == b' ' || leb 9 c && leb c 13

abbrev pub trim_start : List ℕ → List ℕ
trim_start [] = []
trim_start (x ∷ xs) = let rest = trim_start xs in if is_white x then rest else x ∷ xs

abbrev pub trim_end : List ℕ → List ℕ
trim_end [] = []
trim_end (x ∷ xs) = elim (trim_end xs) [
  | [] ↦ if is_white x then [] else x ∷ []
  | y ∷ ys ↦ x ∷ y ∷ ys
]

abbrev pub same_codes : List ℕ → List ℕ → Bool
same_codes [] [] = true
same_codes [] (y ∷ ys) = false
same_codes (x ∷ xs) [] = false
same_codes (x ∷ xs) (y ∷ ys) = x == y && same_codes xs ys

abbrev pub role_text : UserRole → String
role_text UserRole.superadministrator = "superadministrator"
role_text UserRole.administrator = "administrator"
role_text UserRole.member = "member"

abbrev pub is_one_of : List (List ℕ) → UserRole → Bool
is_one_of [] r = false
is_one_of (w ∷ ws) r = same_codes (trim_end (trim_start w)) (codes (role_text r)) || is_one_of ws r

-- `if (role)`: the empty text filters nothing.
unfoldable pub has_role : Option String → User → Bool
has_role none u = true
has_role (some role) u = elim (codes role) [
  | [] ↦ true
  | c ∷ cs ↦ is_one_of (split b',' (c ∷ cs)) u.role_id
]

abbrev pub same_status : UserStatus → UserStatus → Bool
same_status UserStatus.waiting_deposit UserStatus.waiting_deposit = true
same_status UserStatus.pending UserStatus.pending = true
same_status UserStatus.active UserStatus.active = true
same_status UserStatus.inactive UserStatus.inactive = true
same_status UserStatus.rejected UserStatus.rejected = true
same_status _ _ = false

abbrev pub has_status : Option UserStatus → User → Bool
has_status none u = true
has_status (some st) u = same_status u.status st

abbrev pub is_searched : (String → String → Bool) → Option String → User → Bool
is_searched ilike none u = true
is_searched ilike (some t) u = ilike u.fullname t || (ilike u.email t || ilike u.username t)

-- The columns of a user in the list.
pub record UserResponse : Type 0 where
  pub id : ℕ
  pub email : String
  pub fullname : String
  pub username : String
  pub phone_number : String
  pub address : String
  pub status : UserStatus
  pub role_id : UserRole

abbrev pub to_user_response : User → UserResponse
to_user_response u = record {
  id = u.id;
  email = u.email;
  fullname = u.fullname;
  username = u.username;
  phone_number = u.phone_number;
  address = u.address;
  status = u.status;
  role_id = u.role_id;
}

module _ (ilike : String → String → Bool) (before : User → User → Bool) where
  unfoldable pub is_listed : ListUsersQuery → User → Bool
  unfolding has_role
  is_listed query u =
      has_role query.role u && (has_status query.status u && is_searched ilike query.search u)

  unfoldable pub find_all_users : ListUsersQuery → Db → PaginationResult UserResponse
  unfolding is_listed
  find_all_users query s =
      paginate (or_default 1 query.page) (or_default 10 query.limit)
        (map to_user_response (order_by before (select (is_listed query) s.users)))
