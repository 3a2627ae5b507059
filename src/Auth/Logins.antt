-- ===== src/Auth/Logins.antt =====
-- Requests one after the other, and what they keep of a login.
use Prim.Native.String.{◌++◌ as str_append, len}
use text.Mathlib.TextPositions.{eq_refl, len-append}
use ajah.Prelude.{
  ℕ, ◌+◌, ◌≤◌, str_eq, eq_iff, String, ◌≡◌, ◌≢◌, refl, sym, ap, ◌∙◌, Bool, true, false, ◌||◌, not,
  List, [], ◌∷◌, ◌++◌, Option, none, some, any, All, if◌then◌else◌, arith, Bool-cases, Option-cases,
  inl, inr,
}
use ajah.Text.{is_empty}
use ajah.Proxy.Upstream.{api_key_of-bearer}
use ajah.Db.Accounts.{
  Accounts, Org, User, AuthSession, first, filter, has_email, has_user_id, has_org_id, has_hash,
  create_auth_session, session_by_token_hash, org_by_id, user_by_email, delete_auth_session,
}
use ajah.Auth.{
  Libraries, Random, Up, RegisterRequest, LoginRequest, register, login, logout, me, bearer_of,
  email_of, lacks_field, auth_create_session, session_of, check_login, show_me, session_expiry,
  logged_in, myself, view_of,
}
use ajah.Auth.Growth.{Grown, register-Grows, login-Grows}
use ajah.Auth.Members.{any-first, first-append, first-new, IsMember, Grown-IsMember}

pub bearer_of-bearer :
    (token : String) → token ≢ "" → bearer_of (str_append "Bearer " token) ≡ some token
unfolding bearer_of
bearer_of-bearer token h =
    let longer : token ≢ str_append "Bearer " token = (λ e.
      let n : len token ≡ 7 + len token = ap len e ∙ len-append "Bearer " token in
      absurd (omega (arith, n))) in
    ground (
      arith,
      api_key_of-bearer token,
      eq_iff token "",
      eq_iff token (str_append "Bearer " token),
      longer,
    )

-- The rows without some are those without them.
pub first-filter :
    (h k : String) (ss : List AuthSession)
    → first (has_hash h) (filter (λ s. not (has_hash k s)) ss)
      ≡ (if str_eq k h then none else first (has_hash h) ss)
unfolding first filter
first-filter h k [] = ground arith
first-filter h k (s ∷ ss) = ground (
  arith,
  first-filter h k ss,
  eq_iff k h,
  eq_iff s.token_hash h,
  eq_iff s.token_hash k,
  (λ (a : s.token_hash ≡ k) (b : s.token_hash ≡ h). sym a ∙ b),
  (λ (a : s.token_hash ≡ h) (b : k ≡ h). a ∙ sym b),
)

module _ (l : Libraries) where
  pub data Request : Type 0 where
    registering : Random → Up → ℕ → Option RegisterRequest → Request
    logging_in : Random → Up → ℕ → Option LoginRequest → Request
    logging_out : Up → String → Request

  unfoldable pub serve : Request → Accounts → Accounts
  serve (registering r up now q) t = (register l r up now q t).0
  serve (logging_in r up now q) t = (login l r up now q t).0
  serve (logging_out up raw) t = (logout l up raw t).0

  unfoldable pub serve_all : List Request → Accounts → Accounts
  serve_all [] t = t
  serve_all (q ∷ qs) t = serve_all qs (serve q t)

  pub logout-kept :
      (up : Up) (raw : String) (t : Accounts)
      → ((logout l up raw t).0.users ≡ t.users) × ((logout l up raw t).0.orgs ≡ t.orgs)
  unfolding logout delete_auth_session
  logout-kept up raw t = ground arith

  pub IsMember-serve :
      (q : Request) (t : Accounts) (u : User) (o : Org) → IsMember t u o → IsMember (serve q t) u o
  unfolding serve
  IsMember-serve (registering r up now q) t u o m = Grown-IsMember (register-Grows l r up now q t) m
  IsMember-serve (logging_in r up now q) t u o m = Grown-IsMember (login-Grows l r up now q t) m
  IsMember-serve (logging_out up raw) t u o m =
      let (users, orgs) = logout-kept up raw t in
      record {
        by_email = ap (first (has_email u.email)) users ∙ m.by_email;
        by_id = ap (first (has_user_id u.id)) users ∙ m.by_id;
        org = ap (first (has_org_id u.org_id)) orgs ∙ m.org;
      }

  pub IsMember-serve_all :
      (qs : List Request) (t : Accounts) (u : User) (o : Org)
      → IsMember t u o
      → IsMember (serve_all qs t) u o
  unfolding serve_all
  IsMember-serve_all [] t u o m = m
  IsMember-serve_all (q ∷ qs) t u o m =
      IsMember-serve_all qs (serve q t) u o (IsMember-serve q t u o m)

  first-serve :
      (p : Org → Bool) (o : Org) (q : Request) (t : Accounts)
      → first p t.orgs ≡ some o
      → first p (serve q t).orgs ≡ some o
  unfolding serve
  first-serve p o (registering r up now q) t h =
      let g : Grown t (register l r up now q t).0 = register-Grows l r up now q t in
      ap (first p) g.orgs_eq ∙ first-append p t.orgs g.new_orgs o h
  first-serve p o (logging_in r up now q) t h =
      let g : Grown t (login l r up now q t).0 = login-Grows l r up now q t in
      ap (first p) g.orgs_eq ∙ first-append p t.orgs g.new_orgs o h
  first-serve p o (logging_out up raw) t h = ap (first p) (logout-kept up raw t).1 ∙ h

  -- The first organisation of a kind stays the first.
  pub first-serve_all :
      (p : Org → Bool) (o : Org) (qs : List Request) (t : Accounts)
      → first p t.orgs ≡ some o
      → first p (serve_all qs t).orgs ≡ some o
  unfolding serve_all
  first-serve_all p o [] t h = h
  first-serve_all p o (q ∷ qs) t h = first-serve_all p o qs (serve q t) (first-serve p o q t h)

  -- A login that is found under its hash.
  unfoldable pub IsLoggedIn : Accounts → AuthSession → Type 0
  IsLoggedIn t s = first (has_hash s.token_hash) t.auth_sessions ≡ some s

  -- Whether a request logs out the token of a hash.
  abbrev pub ends : String → Request → Bool
  ends hash (registering r up now q) = false
  ends hash (logging_in r up now q) = false
  ends hash (logging_out up raw) = elim (bearer_of raw) [
    | none ↦ false
    | some token ↦ str_eq (l.hash_token token) hash
  ]

  Grown-IsLoggedIn :
      {t t' : Accounts} (s : AuthSession) → Grown t t' → IsLoggedIn t s → IsLoggedIn t' s
  unfolding IsLoggedIn
  Grown-IsLoggedIn {t} s g h =
      ap (first (has_hash s.token_hash)) g.sessions_eq
      ∙ first-append (has_hash s.token_hash) t.auth_sessions g.new_sessions s h

  logout-IsLoggedIn :
      (up : Up) (raw : String) (t : Accounts) (s : AuthSession)
      → ends s.token_hash (logging_out up raw) ≡ false
      → IsLoggedIn t s
      → IsLoggedIn (logout l up raw t).0 s
  unfolding IsLoggedIn logout delete_auth_session
  logout-IsLoggedIn up raw t s spared h = elim (Option-cases (bearer_of raw)) [
    | inl e ↦ ground arith
    | inr (token, e) ↦
        ground (arith, first-filter s.token_hash (l.hash_token token) t.auth_sessions)
  ]

  pub IsLoggedIn-serve_all :
      (s : AuthSession) (qs : List Request) (t : Accounts)
      → All (λ (q : Request). ends s.token_hash q ≡ false) qs
      → IsLoggedIn t s
      → IsLoggedIn (serve_all qs t) s
  unfolding serve_all serve
  IsLoggedIn-serve_all s [] t spared h = h
  IsLoggedIn-serve_all s (registering r up now q ∷ qs) t spared h =
      IsLoggedIn-serve_all s qs (register l r up now q t).0 spared.1
        (Grown-IsLoggedIn s (register-Grows l r up now q t) h)
  IsLoggedIn-serve_all s (logging_in r up now q ∷ qs) t spared h =
      IsLoggedIn-serve_all s qs (login l r up now q t).0 spared.1
        (Grown-IsLoggedIn s (login-Grows l r up now q t) h)
  IsLoggedIn-serve_all s (logging_out up raw ∷ qs) t spared h =
      IsLoggedIn-serve_all s qs (logout l up raw t).0 spared.1
        (logout-IsLoggedIn up raw t s spared.0 h)

  -- Whether the login's id and token are new.
  abbrev pub is_new : Random → String → Accounts → Bool
  is_new r token t = not (
      any (λ s. str_eq s.id r.session_id) t.auth_sessions
      || any (has_hash (l.hash_token token)) t.auth_sessions)

  pub login-opens :
      (r : Random) (up : Up) (now : ℕ) (q : LoginRequest) (token : String) (t : Accounts) (u : User)
      (o : Org)
      → IsMember t u o
      → email_of l q.email ≡ u.email
      → str_eq u.email "" ≡ false
      → is_empty q.password ≡ false
      → l.compare_hash_and_password u.password_hash q.password ≡ true
      → up.emails ≡ true
      → up.new_session ≡ true
      → r.token ≡ some token
      → is_new r token t ≡ true
      → login l r up now (some q) t ≡ (
        record t { auth_sessions = t.auth_sessions ++ session_of l r now u.id u.org_id token ∷ [] },
        (200, logged_in token (now + session_expiry) (view_of u) u.org_id),
      )
  unfolding login user_by_email check_login auth_create_session create_auth_session
  login-opens r up now q token t u o m same named filled right emails sessions drawn fresh =
      let user : any (has_user_id u.id) t.users ≡ true =
        any-first (has_user_id u.id) t.users u m.by_id in
      let org : any (has_org_id u.org_id) t.orgs ≡ true =
        any-first (has_org_id u.org_id) t.orgs o m.org in
      let found : user_by_email up.emails (email_of l q.email) t ≡ some (some u) =
        ground (arith, ap (λ e. first (has_email e) t.users) same, m.by_email) in
      ground (arith, found, user, org)

  pub me-shows :
      (up : Up) (now : ℕ) (token : String) (t : Accounts) (u : User) (o : Org) (s : AuthSession)
      → IsMember t u o
      → IsLoggedIn t s
      → s.token_hash ≡ l.hash_token token
      → s.user_id ≡ u.id
      → s.org_id ≡ u.org_id
      → token ≢ ""
      → now ≤ s.expires_at
      → up.tokens ≡ true
      → up.org_ids ≡ true
      → me l up true now (str_append "Bearer " token) t
        ≡ (200, myself (record { id = s.user_id; email = u.email; role = u.role }) o)
  unfolding me show_me session_by_token_hash org_by_id IsLoggedIn
  me-shows up now token t u o s m h hash user org given early tokens orgs =
      let row : first (has_hash (l.hash_token token)) t.auth_sessions ≡ some s =
        ap (λ k. first (has_hash k) t.auth_sessions) (sym hash) ∙ h in
      let who : first (has_user_id s.user_id) t.users ≡ some u =
        ap (λ k. first (has_user_id k) t.users) user ∙ m.by_id in
      let where_ : first (has_org_id s.org_id) t.orgs ≡ some o =
        ap (λ k. first (has_org_id k) t.orgs) org ∙ m.org in
      ground (arith, bearer_of-bearer token given, row, who, where_)

  pub created-filled :
      (r : Random) (up : Up) (now : ℕ) (q : RegisterRequest) (t : Accounts)
      → (register l r up now (some q) t).1.0 ≡ 201
      → lacks_field l q ≡ false
  unfolding register
  created-filled r up now q t h = elim (Bool-cases (lacks_field l q)) [
    | inl e ↦
        absurd
          (let same : (register l r up now (some q) t).1.0 ≡ 400 = rw e refl in omega (arith, same))
    | inr e ↦ e
  ]

  pub new_login :
      (s : AuthSession) (t : Accounts)
      → any (has_hash s.token_hash) t.auth_sessions ≡ false
      → IsLoggedIn (record t { auth_sessions = t.auth_sessions ++ s ∷ [] }) s
  unfolding IsLoggedIn
  new_login s t h = first-new (has_hash s.token_hash) t.auth_sessions s h (eq_refl s.token_hash)
