-- ===== src/Auth/Examples.antt =====
-- The theorems about accounts at a first registration.
use Prim.Native.String.{◌++◌ as str_append}
use mathlib.Core.Bool.{true≢false}
use ajah.Prelude.{
  ◌+◌, ◌≡◌, ◌≢◌, refl, sym, ap, true, false, String, str_eq, List, [], ◌∷◌, some, Result, ok, err,
  arith, if◌then◌else◌,
}
use ajah.Text.{Bytes, ascii}
use ajah.Proxy.Providers.{api_key_of}
use ajah.Db.Accounts.{
  Accounts, create_org, create_user, create_auth_session, user_by_email, org_by_slug,
  delete_auth_session, first, filter,
}
use ajah.Auth.{
  Libraries, Random, Up, RegisterRequest, register, register_email, create_account,
  auth_create_session, login, logout, bearer_of, me, session_expiry, problem, myself, logged_in,
  org_of,
}
use ajah.Auth.Logins.{Request, logging_out, registering, serve, serve_all}
use ajah.Auth.Access.{login_of, owner_of, register-login-me, me-logout}
use ajah.Auth.Refusals.{register-taken}

abbrev text : Bytes → String
text s = "secret"

abbrev libraries : Libraries
libraries = record {
  E = Bytes;
  to_lower = λ s. s;
  trim_space = λ s. s;
  dashed = λ s. s;
  hash_token = λ s. str_append "sha:" s;
  generate_from_password = λ p. ok "bcrypt";
  compare_hash_and_password = λ hash p. str_eq hash "bcrypt";
}

abbrev all_up : Up
all_up = record {
  slugs = true;
  emails = true;
  new_org = true;
  new_user = true;
  new_session = true;
  tokens = true;
  org_ids = true;
  deletion = true;
  members = true;
}

abbrev drawn : Random
drawn = record { org_id = "o1"; user_id = "u1"; session_id = "s1"; token = some "t1" }

abbrev drawn_later : Random
drawn_later = record { org_id = "o2"; user_id = "u2"; session_id = "s2"; token = some "t2" }

abbrev request : RegisterRequest
request = record { org_name = "acme"; email = "a@acme"; password = ascii "password" }

abbrev no_accounts : Accounts
no_accounts = record { orgs = []; users = []; auth_sessions = [] }

abbrev accounts : Accounts
accounts = (register libraries drawn all_up 1000 (some request) no_accounts).0

accepts :
    (p : Bytes) (hash : String)
    → libraries.generate_from_password p ≡ ok hash
    → libraries.compare_hash_and_password hash p ≡ true
accepts p hash h =
    let same : String → Result Bytes String → String = (λ d r. elim r [ ok v ↦ v | err e ↦ d ]) in
    ap (λ v. str_eq v "bcrypt") (sym (ap (same hash) h))

created : (register libraries drawn all_up 1000 (some request) no_accounts).1.0 ≡ 201
unfolding register register_email create_account auth_create_session create_org create_user
    create_auth_session user_by_email org_by_slug first
created = refl

given : ◌≢◌ {A = String} "t2" ""
given h = true≢false (ap (λ s. str_eq s "t2") h)

t1_given : ◌≢◌ {A = String} "t1" ""
t1_given h = true≢false (ap (λ s. str_eq s "t1") h)

t1_spared : str_eq "sha:t1" "sha:t2" ≡ false
t1_spared = refl

-- The first login of the registration is logged out before the second, and the name is asked for again
-- after it.
abbrev between : List (Request libraries)
between = logging_out all_up "Bearer t1" ∷ []

abbrev after : List (Request libraries)
after = registering drawn_later all_up 3000 (some request) ∷ []

abbrev later_accounts : Accounts
later_accounts = serve_all libraries between accounts

register-login-me_example :
    ((login libraries drawn_later all_up 2000 (some (login_of libraries request)) later_accounts).1
      ≡ (200, logged_in "t2" (2000 + session_expiry) (owner_of libraries drawn request) "o1"))
    × (me libraries all_up true 5000 (str_append "Bearer " "t2") (
          serve_all libraries after
            (login libraries drawn_later all_up 2000
              (some (login_of libraries request))
              later_accounts).0)
        ≡ (200, myself (owner_of libraries drawn request) (org_of libraries drawn "acme" "acme")))
unfolding register register_email create_account auth_create_session create_org create_user
    create_auth_session user_by_email org_by_slug first logout delete_auth_session filter bearer_of
    api_key_of serve_all serve
register-login-me_example =
    register-login-me libraries accepts drawn all_up 1000 request no_accounts created between
      drawn_later all_up 2000 "t2" refl given refl refl refl after (refl, tt) all_up 5000
      (omega arith) refl refl

me-logout_example :
    me libraries all_up true 2000
      (str_append "Bearer " "t2")
      (logout libraries all_up (str_append "Bearer " "t1") accounts).0
    ≡ (if str_eq "sha:t1" "sha:t2"
        then (401, problem "invalid or expired token")
        else me libraries all_up true 2000 (str_append "Bearer " "t2") accounts)
me-logout_example =
    me-logout libraries all_up "t1" accounts all_up 2000 "t2" t1_given given refl refl

-- The statement that adds the user is not answered.
abbrev no_users : Up
no_users = record all_up { new_user = false }

failed :
    (register libraries drawn no_users 1000 (some request) no_accounts).1
    ≡ (500, problem "failed to create user")
unfolding register register_email create_account auth_create_session create_org create_user
    create_auth_session user_by_email org_by_slug first
failed = refl

-- Another registration comes between, whose name is taken too.
register-taken_example :
    (register libraries drawn_later all_up 2000 (some request) (
      serve_all libraries after
        (register libraries drawn no_users 1000 (some request) no_accounts).0)).1
    ≡ (409, problem "organisation name already taken")
register-taken_example =
    register-taken libraries drawn no_users 1000 request no_accounts failed after drawn_later all_up
      2000 request refl refl (omega arith) refl
