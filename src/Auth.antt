-- ===== src/Auth.antt =====
-- cmd/gateway/auth_handlers.go and internal/auth. crypto/rand, SHA-256, bcrypt, the case of letters, white
-- space and encoding/json are parameters, times are in seconds. The header of a reply and log lines are
-- left out.
pub mod Growth
pub mod Members
pub mod Logins
pub mod Access
pub mod Refusals
mod Examples
use Prim.Native.String.{◌++◌ as str_append}
use ajah.Prelude.{
  ℕ, ◌+◌, Bool, true, false, ◌&&◌, ◌||◌, not, String, str_eq, List, [], ◌∷◌, Option, none, some,
  Result, ok, err, ltb, if◌then◌else◌, length, map,
}
use ajah.Text.{Bytes, is_empty}
use ajah.Proxy.Providers.{api_key_of}
use ajah.Db.Accounts.{
  Org, User, AuthSession, Accounts, create_org, org_by_slug, org_by_id, create_user, user_by_email,
  list_org_users, create_auth_session, session_by_token_hash, delete_auth_session,
}

-- The libraries: strings.ToLower, strings.TrimSpace, strings.ReplaceAll of spaces by dashes, the hex text of
-- a SHA-256 hash, and bcrypt's two functions.
pub record Libraries : Type 1 where
  pub E : Type 0
  pub to_lower : String → String
  pub trim_space : String → String
  pub dashed : String → String
  pub hash_token : String → String
  pub generate_from_password : Bytes → Result E String
  pub compare_hash_and_password : String → Bytes → Bool

-- What crypto/rand gives in the course of a request; a token may fail.
pub record Random : Type 0 where
  pub org_id : String
  pub user_id : String
  pub session_id : String
  pub token : Option String

-- Which statements the server answers in the course of a request; each is sent once at most.
pub record Up : Type 0 where
  pub slugs : Bool
  pub emails : Bool
  pub new_org : Bool
  pub new_user : Bool
  pub new_session : Bool
  pub tokens : Bool
  pub org_ids : Bool
  pub deletion : Bool
  pub members : Bool

pub record UserView : Type 0 where
  pub id : String
  pub email : String
  pub role : String

pub data Body : Type 0 where
  problem : String → Body
  registered : String → ℕ → UserView → Org → Body
  logged_in : String → ℕ → UserView → String → Body
  logged_out : Body
  anonymous : Body
  myself : UserView → Org → Body
  team : List UserView → Body

-- A status and a body.
abbrev pub Reply : Type 0
Reply = ℕ × Body

abbrev pub view_of : User → UserView
view_of u = record { id = u.id; email = u.email; role = u.role }

-- 30 days.
abbrev pub session_expiry : ℕ
session_expiry = 2592000

pub record RegisterRequest : Type 0 where
  pub org_name : String
  pub email : String
  pub password : Bytes

pub record LoginRequest : Type 0 where
  pub email : String
  pub password : Bytes

-- The token of an Authorization header, if it has one: what follows "Bearer ".
unfoldable pub bearer_of : String → Option String
bearer_of raw =
    let token : String = api_key_of raw in
    if str_eq token "" || str_eq token raw then none else some token

module _ (l : Libraries) where
  abbrev internal : Accounts → Accounts × Reply
  internal t = (t, (500, problem "internal error"))

  abbrev pub session_of : Random → ℕ → String → String → String → AuthSession
  session_of r now user_id org_id token = record {
    id = r.session_id;
    user_id = user_id;
    org_id = org_id;
    token_hash = l.hash_token token;
    expires_at = now + session_expiry;
  }

  -- authCreateSession
  unfoldable pub auth_create_session :
      Random → Up → ℕ → String → String → Accounts → Option (Accounts × String × ℕ)
  auth_create_session r up now user_id org_id t = elim r.token [
    | none ↦ none
    | some token ↦
        elim (create_auth_session up.new_session (session_of r now user_id org_id token) t) [
          | none ↦ none
          | some stored ↦ some (stored, token, now + session_expiry)
        ]
  ]

  -- The end of registerHandler, once organisation and user are there.
  abbrev pub after_creation :
      User → Org → Accounts → Option (Accounts × String × ℕ) → Accounts × Reply
  after_creation u org t none = internal t
  after_creation u org t (some (stored, token, expires_at)) =
      (stored, (201, registered token expires_at (view_of u) org))

  -- The rest of registerHandler, once the password is hashed.
  unfoldable pub create_account : Random → Up → ℕ → Org → User → Accounts → Accounts × Reply
  create_account r up now org u t = elim (create_org up.new_org org t) [
    | none ↦ (t, (500, problem "failed to create organisation"))
    | some with_org ↦ elim (create_user up.new_user u with_org) [
      | none ↦ (with_org, (500, problem "failed to create user"))
      | some with_user ↦
          after_creation u org with_user (auth_create_session r up now u.id org.id with_user)
    ]
  ]

  abbrev pub org_of : Random → String → String → Org
  org_of r org_name slug = record { id = r.org_id; name = org_name; slug = slug }

  abbrev pub user_of : Random → String → String → User
  user_of r email hash = record {
    id = r.user_id;
    org_id = r.org_id;
    email = email;
    password_hash = hash;
    role = "owner";
  }

  -- registerHandler from the check of the email on.
  unfoldable pub register_email :
      Random → Up → ℕ → String → String → String → Bytes → Accounts → Accounts × Reply
  register_email r up now org_name slug email password t = elim (user_by_email up.emails email t) [
    | none ↦ internal t
    | some (some existing) ↦ (t, (409, problem "email already registered"))
    | some none ↦ elim (l.generate_from_password password) [
      | err e ↦ internal t
      | ok hash ↦ create_account r up now (org_of r org_name slug) (user_of r email hash) t
    ]
  ]

  abbrev pub email_of : String → String
  email_of email = l.to_lower (l.trim_space email)

  abbrev pub slug_of : String → String
  slug_of org_name = l.to_lower (l.dashed org_name)

  abbrev pub lacks_field : RegisterRequest → Bool
  lacks_field q =
      str_eq (l.trim_space q.org_name) "" || str_eq (email_of q.email) "" || is_empty q.password

  -- registerHandler; the request is none if its body does not decode.
  unfoldable pub register : Random → Up → ℕ → Option RegisterRequest → Accounts → Accounts × Reply
  register r up now none t = (t, (400, problem "invalid JSON"))
  register r up now (some q) t =
      let email : String = email_of q.email in
      let org_name : String = l.trim_space q.org_name in
      if lacks_field q
      then (t, (400, problem "org_name, email, and password are required"))
      else if ltb (length q.password) 8
      then (t, (400, problem "password must be at least 8 characters"))
      else elim (org_by_slug up.slugs (slug_of org_name) t) [
        | none ↦ internal t
        | some (some existing) ↦ (t, (409, problem "organisation name already taken"))
        | some none ↦ register_email r up now org_name (slug_of org_name) email q.password t
      ]

  -- loginHandler once the password is right.
  abbrev pub open_session : User → Accounts → Option (Accounts × String × ℕ) → Accounts × Reply
  open_session u t none = internal t
  open_session u t (some (stored, token, expires_at)) =
      (stored, (200, logged_in token expires_at (view_of u) u.org_id))

  -- loginHandler on what it finds under the email.
  unfoldable pub check_login :
      Random → Up → ℕ → Bytes → Option (Option User) → Accounts → Accounts × Reply
  check_login r up now password none t = internal t
  check_login r up now password (some none) t = (t, (401, problem "invalid email or password"))
  check_login r up now password (some (some u)) t =
      if l.compare_hash_and_password u.password_hash password
      then open_session u t (auth_create_session r up now u.id u.org_id t)
      else (t, (401, problem "invalid email or password"))

  -- loginHandler
  unfoldable pub login : Random → Up → ℕ → Option LoginRequest → Accounts → Accounts × Reply
  login r up now none t = (t, (400, problem "invalid JSON"))
  login r up now (some q) t =
      if str_eq (email_of q.email) "" || is_empty q.password
      then (t, (400, problem "email and password are required"))
      else check_login r up now q.password (user_by_email up.emails (email_of q.email) t) t

  -- logoutHandler: an error of the deletion is only logged.
  unfoldable pub logout : Up → String → Accounts → Accounts × Reply
  logout up raw t = elim (bearer_of raw) [
    | none ↦ (t, (200, logged_out))
    | some token ↦ elim (delete_auth_session up.deletion (l.hash_token token) t) [
      | none ↦ (t, (200, logged_out))
      | some left ↦ (left, (200, logged_out))
    ]
  ]

  -- meHandler on what it finds under the token's hash.
  unfoldable pub show_me : Up → ℕ → Accounts → Option (Option (AuthSession × User)) → Reply
  show_me up now t none = (500, problem "internal error")
  show_me up now t (some none) = (401, problem "invalid or expired token")
  show_me up now t (some (some (s, u))) =
      if ltb s.expires_at now
      then (401, problem "invalid or expired token")
      else elim (org_by_id up.org_ids u.org_id t) [
        | none ↦ (500, problem "org not found")
        | some none ↦ (500, problem "org not found")
        | some (some org) ↦ (200, myself (view_of u) org)
      ]

  -- meHandler
  unfoldable pub me : Up → Bool → ℕ → String → Accounts → Reply
  me up false now raw t = (200, anonymous)
  me up true now raw t = elim (bearer_of raw) [
    | none ↦ (401, problem "unauthorized")
    | some token ↦ show_me up now t (session_by_token_hash up.tokens (l.hash_token token) t)
  ]

-- listTeamHandler, of the value of X-Ajah-Org-ID.
unfoldable pub list_team : Up → String → Accounts → Reply
list_team up org_id t =
    if str_eq org_id ""
    then (401, problem "unauthorized")
    else elim (list_org_users up.members org_id t) [
      | none ↦ (500, problem "internal error")
      | some users ↦ (200, team (map view_of users))
    ]

-- RequireAuth on what the lookup finds.
abbrev pub let_through : ℕ → Option (UserView × String × ℕ) → Result String (UserView × String)
let_through now none = err "invalid or expired token"
let_through now (some (u, org_id, expires_at)) =
    if ltb expires_at now then err "invalid or expired token" else ok (u, org_id)

-- RequireAuth: whom the lookup finds for the token, if it has not expired; the request then goes on.
unfoldable pub require_auth :
    (String → String)
    → (String → Option (UserView × String × ℕ))
    → ℕ
    → String
    → Result String (UserView × String)
require_auth hash_token lookup now raw =
    if str_eq raw "" then err "missing Authorization header" else elim (bearer_of raw) [
      | none ↦ err "invalid Authorization header format"
      | some token ↦ let_through now (lookup (hash_token token))
    ]
