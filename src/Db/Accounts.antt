-- ===== src/Db/Accounts.antt =====
-- The tables of organisations, users and logins, with the statements on them. A table is the list of its
-- rows, oldest first; times are in seconds, and the time of a row's creation is left out. Each statement
-- is given whether the server answers.
use ajah.Prelude.{
  ℕ, Bool, ◌&&◌, ◌||◌, not, String, str_eq, List, [], ◌∷◌, ◌++◌, Option, none, some, ltb, any,
  if◌then◌else◌,
}

pub record Org : Type 0 where
  pub id : String
  pub name : String
  pub slug : String

pub record User : Type 0 where
  pub id : String
  pub org_id : String
  pub email : String
  pub password_hash : String
  pub role : String

pub record AuthSession : Type 0 where
  pub id : String
  pub user_id : String
  pub org_id : String
  pub token_hash : String
  pub expires_at : ℕ

pub record Accounts : Type 0 where
  pub orgs : List Org
  pub users : List User
  pub auth_sessions : List AuthSession

module _ {A : Type 0} where
  -- The first row that passes.
  unfoldable pub first : (A → Bool) → List A → Option A
  first p [] = none
  first p (x ∷ xs) = let rest = first p xs in if p x then some x else rest

  unfoldable pub filter : (A → Bool) → List A → List A
  filter p [] = []
  filter p (x ∷ xs) = let rest = filter p xs in if p x then x ∷ rest else rest

  -- A query's answer, none if the server gives none.
  abbrev query : Bool → A → Option A
  query up answer = if up then some answer else none

abbrev pub has_org_id : String → Org → Bool
has_org_id id o = str_eq o.id id

abbrev pub has_slug : String → Org → Bool
has_slug slug o = str_eq o.slug slug

abbrev pub has_user_id : String → User → Bool
has_user_id id u = str_eq u.id id

abbrev pub has_email : String → User → Bool
has_email email u = str_eq u.email email

abbrev pub has_hash : String → AuthSession → Bool
has_hash hash s = str_eq s.token_hash hash

-- The id is the primary key, the slug is unique.
abbrev pub takes_org : Bool → Org → Accounts → Bool
takes_org up org t = up && not (any (has_org_id org.id) t.orgs || any (has_slug org.slug) t.orgs)

unfoldable pub create_org : Bool → Org → Accounts → Option Accounts
create_org up org t =
    if takes_org up org t then some (record t { orgs = t.orgs ++ org ∷ [] }) else none

unfoldable pub org_by_slug : Bool → String → Accounts → Option (Option Org)
org_by_slug up slug t = query up (first (has_slug slug) t.orgs)

unfoldable pub org_by_id : Bool → String → Accounts → Option (Option Org)
org_by_id up id t = query up (first (has_org_id id) t.orgs)

-- The id is the primary key, the email is unique, and the organisation must exist.
abbrev pub takes_user : Bool → User → Accounts → Bool
takes_user up u t =
    up
    && any (has_org_id u.org_id) t.orgs
    && not (any (has_user_id u.id) t.users || any (has_email u.email) t.users)

unfoldable pub create_user : Bool → User → Accounts → Option Accounts
create_user up u t =
    if takes_user up u t then some (record t { users = t.users ++ u ∷ [] }) else none

unfoldable pub user_by_email : Bool → String → Accounts → Option (Option User)
user_by_email up email t = query up (first (has_email email) t.users)

unfoldable pub user_by_id : Bool → String → Accounts → Option (Option User)
user_by_id up id t = query up (first (has_user_id id) t.users)

unfoldable pub list_org_users : Bool → String → Accounts → Option (List User)
list_org_users up org_id t = query up (filter (λ u. str_eq u.org_id org_id) t.users)

-- The id is the primary key, the hash is unique, and the user and the organisation must exist.
abbrev pub takes_session : Bool → AuthSession → Accounts → Bool
takes_session up s t =
    up
    && any (has_user_id s.user_id) t.users
    && any (has_org_id s.org_id) t.orgs
    && not
        (any (λ r. str_eq r.id s.id) t.auth_sessions || any (has_hash s.token_hash) t.auth_sessions)

unfoldable pub create_auth_session : Bool → AuthSession → Accounts → Option Accounts
create_auth_session up s t =
    if takes_session up s t
    then some (record t { auth_sessions = t.auth_sessions ++ s ∷ [] })
    else none

-- The user is made of the login's ids and of the email and the role of the joined row.
abbrev pub joined : AuthSession → User → User
joined s u = record {
  id = s.user_id;
  org_id = s.org_id;
  email = u.email;
  password_hash = "";
  role = u.role;
}

-- A login whose user is not there is not found.
abbrev pub join_user : List User → Option AuthSession → Option (AuthSession × User)
join_user users none = none
join_user users (some s) = elim (first (has_user_id s.user_id) users) [
  | none ↦ none
  | some u ↦ some (s, joined s u)
]

unfoldable pub session_by_token_hash :
    Bool → String → Accounts → Option (Option (AuthSession × User))
session_by_token_hash up hash t =
    query up (join_user t.users (first (has_hash hash) t.auth_sessions))

unfoldable pub delete_auth_session : Bool → String → Accounts → Option Accounts
delete_auth_session up hash t =
    if up
    then some (record t { auth_sessions = filter (λ s. not (has_hash hash s)) t.auth_sessions })
    else none

unfoldable pub delete_expired_sessions : Bool → ℕ → Accounts → Option Accounts
delete_expired_sessions up now t =
    if up
    then some
        (record t { auth_sessions = filter (λ s. not (ltb s.expires_at now)) t.auth_sessions })
    else none
