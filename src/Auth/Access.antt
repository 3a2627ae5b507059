-- ===== src/Auth/Access.antt =====
-- From a registration to /auth/me, and after a logout.
use Prim.Native.String.{◌++◌ as str_append}
use ajah.Prelude.{
  ℕ, ◌+◌, ◌≤◌, subst, str_eq, String, ◌≡◌, ◌≢◌, refl, sym, ap, true, false, List, [], ◌∷◌, ◌++◌,
  some, ok, any, All, if◌then◌else◌, arith,
}
use ajah.Text.{Bytes, is_empty}
use ajah.Db.Accounts.{
  Accounts, Org, User, AuthSession, has_hash, session_by_token_hash, org_by_id, delete_auth_session,
}
use ajah.Auth.{
  Libraries, Random, Up, RegisterRequest, LoginRequest, register, login, logout, me, slug_of,
  email_of, lacks_field, session_of, show_me, session_expiry, logged_in, myself, UserView, problem,
  user_of, org_of,
}
use ajah.Auth.Logins.{
  Request, serve_all, ends, is_new, IsLoggedIn, IsMember-serve_all, IsLoggedIn-serve_all,
  login-opens, me-shows, created-filled, new_login, first-filter, bearer_of-bearer,
}
use ajah.Auth.Growth.{login-Grows}
use ajah.Auth.Members.{IsMember, Grown-IsMember, register-Registers}

module _ (l : Libraries) where
  abbrev pub login_of : RegisterRequest → LoginRequest
  login_of q = record { email = q.email; password = q.password }

  abbrev pub owner_of : Random → RegisterRequest → UserView
  owner_of r q = record { id = r.user_id; email = email_of l q.email; role = "owner" }

  -- bcrypt accepts the password that a hash was made of.
  module _
      (accepts : (p : Bytes) (hash : String)
        → l.generate_from_password p ≡ ok hash
        → l.compare_hash_and_password hash p ≡ true) where
    -- If bcrypt accepts a password with the hash made of it: whoever is registered, with status
    -- 201, can log in with the same email and password after any requests of registrations, logins
    -- and logouts, whatever the server answers to them: if then the server answers, the token that
    -- is drawn is not empty, and the drawn id and token are new, the login gives the token with the
    -- id that was drawn for the user. And until the token expires, after any requests that do not
    -- log it out, /auth/me with AUTH_ENABLED=true, where the server answers, shows the user, an
    -- owner, and the organisation as they were registered.
    pub register-login-me :
        (r : Random) (up : Up) (now : ℕ) (q : RegisterRequest) (t : Accounts)
        → (register l r up now (some q) t).1.0 ≡ 201
        → (between : List (Request l)) (r2 : Random) (up2 : Up) (later : ℕ) (token : String)
        → r2.token ≡ some token
        → token ≢ ""
        → up2.emails ≡ true
        → up2.new_session ≡ true
        → is_new l r2 token (serve_all l between (register l r up now (some q) t).0) ≡ true
        → (after : List (Request l))
        → All (λ (x : Request l). ends l (l.hash_token token) x ≡ false) after
        → (up3 : Up) (last : ℕ) → last ≤ later + session_expiry
        → up3.tokens ≡ true
        → up3.org_ids ≡ true
        → ((login l r2 up2 later
              (some (login_of q))
              (serve_all l between (register l r up now (some q) t).0)).1
            ≡ (200, logged_in token (later + session_expiry) (owner_of r q) r.org_id))
          × (me l up3 true last (str_append "Bearer " token) (
                serve_all l after
                  (login l r2 up2 later
                    (some (login_of q))
                    (serve_all l between (register l r up now (some q) t).0)).0)
              ≡ (
                200,
                myself
                    (owner_of r q)
                    (org_of l r (l.trim_space q.org_name) (slug_of l (l.trim_space q.org_name))),
              ))
    register-login-me r up now q t created between r2 up2 later token drawn given emails sessions
          fresh after spared up3 last early tokens orgs =
        let (hash, hashed, joined_now) = register-Registers l r up now q t created in
        let u : User = user_of l r (email_of l q.email) hash in
        let o : Org = org_of l r (l.trim_space q.org_name) (slug_of l (l.trim_space q.org_name)) in
        let t1 : Accounts = serve_all l between (register l r up now (some q) t).0 in
        let m : IsMember t1 u o =
          IsMember-serve_all l between (register l r up now (some q) t).0 u o joined_now in
        let filled : lacks_field l q ≡ false = created-filled l r up now q t created in
        let named : str_eq (email_of l q.email) "" ≡ false = ground (arith, filled) in
        let secret : is_empty q.password ≡ false = ground (arith, filled) in
        let s : AuthSession = session_of l r2 later r.user_id r.org_id token in
        let unused : any (has_hash (l.hash_token token)) t1.auth_sessions ≡ false =
          ground (arith, fresh) in
        let opened : login l r2 up2 later (some (login_of q)) t1 ≡ (
          record t1 { auth_sessions = t1.auth_sessions ++ s ∷ [] },
          (200, logged_in token (later + session_expiry) (owner_of r q) r.org_id),
        ) =
          login-opens l r2 up2 later (login_of q) token t1 u o m refl named secret
            (accepts q.password hash hashed) emails sessions drawn fresh in
        let t2 : Accounts = (login l r2 up2 later (some (login_of q)) t1).0 in
        let here : IsLoggedIn l t2 s =
          subst (λ x. IsLoggedIn l x s) (sym (ap (λ x. x.0) opened)) (new_login l s t1 unused) in
        (
          ap (λ x. x.1) opened,
          me-shows l up3 last token (serve_all l after t2) u o s
              (IsMember-serve_all l after t2 u o
                (Grown-IsMember (login-Grows l r2 up2 later (some (login_of q)) t1) m))
              (IsLoggedIn-serve_all l s after t2 spared here) refl refl refl given early tokens
              orgs,
        )

  -- With AUTH_ENABLED=true, and where the server answers the deletion and the later lookup: after a
  -- logout with a token that is not empty, of the tokens that are not empty those with the same
  -- hash are refused by /auth/me with status 401, and every other one gets the reply that it got
  -- before.
  pub me-logout :
      (up : Up) (token : String) (t : Accounts) (up2 : Up) (now : ℕ) (other : String)
      → token ≢ ""
      → other ≢ ""
      → up.deletion ≡ true
      → up2.tokens ≡ true
      → me l up2 true now
          (str_append "Bearer " other)
          (logout l up (str_append "Bearer " token) t).0
        ≡ (if str_eq (l.hash_token token) (l.hash_token other)
            then (401, problem "invalid or expired token")
            else me l up2 true now (str_append "Bearer " other) t)
  unfolding me show_me logout session_by_token_hash delete_auth_session org_by_id
  me-logout up token t up2 now other given other_given deletes tokens = ground (
    arith,
    bearer_of-bearer token given,
    bearer_of-bearer other other_given,
    first-filter (l.hash_token other) (l.hash_token token) t.auth_sessions,
  )
