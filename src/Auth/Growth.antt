-- ===== src/Auth/Growth.antt =====
-- What the requests keep of the tables: organisations and users are only added.
use mathlib.Core.List.{append-nil, append_assoc}
use ajah.Prelude.{
  ℕ, subst, str_eq, ltb, length, String, ◌≡◌, refl, sym, ap, ◌∙◌, Bool, true, false, ◌||◌, List, [],
  ◌∷◌, ◌++◌, Option, none, some, Result, ok, err, if◌then◌else◌,
}
use ajah.Db.Accounts.{
  Accounts, Org, User, AuthSession, takes_org, takes_user, takes_session, create_org, create_user,
  create_auth_session, user_by_email, org_by_slug,
}
use ajah.Auth.{
  Libraries, Random, Up, auth_create_session, session_of, create_account, after_creation,
  register_email, register, login, check_login, lacks_field, org_of, user_of, slug_of, email_of,
  RegisterRequest, LoginRequest, Reply, open_session,
}
use ajah.Text.{Bytes, is_empty}

module _ {A B : Type 0} (P : B → Type 0) {d : B} {f : A → B} where
  pub at_option :
      (o : Option A)
      → P d
      → ((a : A) → o ≡ some a → P (f a))
      → P (elim o [ none ↦ d | some a ↦ f a ])
  at_option none p q = p
  at_option (some a) p q = q a refl

module _ {B E A : Type 0} (P : B → Type 0) {f : E → B} {g : A → B} where
  pub at_result :
      (o : Result E A)
      → ((e : E) → P (f e))
      → ((a : A) → o ≡ ok a → P (g a))
      → P (elim o [ err e ↦ f e | ok a ↦ g a ])
  at_result (err e) p q = p e
  at_result (ok a) p q = q a refl

module _ {B : Type 0} (P : B → Type 0) {x y : B} where
  pub at_if : (b : Bool) → P x → P y → P (if b then x else y)
  at_if true p q = p
  at_if false p q = q

-- Rows were added to each table.
pub record Grown (t t' : Accounts) : Type 0 where
  pub new_orgs : List Org
  pub new_users : List User
  pub new_sessions : List AuthSession
  pub orgs_eq : t'.orgs ≡ t.orgs ++ new_orgs
  pub users_eq : t'.users ≡ t.users ++ new_users
  pub sessions_eq : t'.auth_sessions ≡ t.auth_sessions ++ new_sessions

pub Grown-refl : (t : Accounts) → Grown t t
Grown-refl t = record {
  new_orgs = [];
  new_users = [];
  new_sessions = [];
  orgs_eq = sym (append-nil t.orgs);
  users_eq = sym (append-nil t.users);
  sessions_eq = sym (append-nil t.auth_sessions);
}

pub Grown-trans : {a b c : Accounts} → Grown a b → Grown b c → Grown a c
Grown-trans {a} g h = record {
  new_orgs = g.new_orgs ++ h.new_orgs;
  new_users = g.new_users ++ h.new_users;
  new_sessions = g.new_sessions ++ h.new_sessions;
  orgs_eq =
      h.orgs_eq ∙ ap (λ l. l ++ h.new_orgs) g.orgs_eq ∙ append_assoc a.orgs g.new_orgs h.new_orgs;
  users_eq =
      h.users_eq
      ∙ ap (λ l. l ++ h.new_users) g.users_eq
      ∙ append_assoc a.users g.new_users h.new_users;
  sessions_eq =
      h.sessions_eq
      ∙ ap (λ l. l ++ h.new_sessions) g.sessions_eq
      ∙ append_assoc a.auth_sessions g.new_sessions h.new_sessions;
}

-- A statement that succeeds has only added rows.
abbrev pub Adds : Accounts → Option Accounts → Type 0
Adds t none = Unit
Adds t (some t') = Grown t t'

abbrev pub Opens : Accounts → Option (Accounts × String × ℕ) → Type 0
Opens t none = Unit
Opens t (some (t', token, expires_at)) = Grown t t'

either_way : (b : Bool) (t t' : Accounts) → Grown t t' → Adds t (if b then some t' else none)
either_way true t t' g = g
either_way false t t' g = tt

pub create_org-Adds : (up : Bool) (org : Org) (t : Accounts) → Adds t (create_org up org t)
unfolding create_org
create_org-Adds up org t =
    either_way (takes_org up org t) t (record t { orgs = t.orgs ++ org ∷ [] })
      (record {
        new_orgs = org ∷ [];
        new_users = [];
        new_sessions = [];
        orgs_eq = refl;
        users_eq = sym (append-nil t.users);
        sessions_eq = sym (append-nil t.auth_sessions);
      })

pub create_user-Adds : (up : Bool) (u : User) (t : Accounts) → Adds t (create_user up u t)
unfolding create_user
create_user-Adds up u t =
    either_way (takes_user up u t) t (record t { users = t.users ++ u ∷ [] })
      (record {
        new_orgs = [];
        new_users = u ∷ [];
        new_sessions = [];
        orgs_eq = sym (append-nil t.orgs);
        users_eq = refl;
        sessions_eq = sym (append-nil t.auth_sessions);
      })

pub create_auth_session-Adds :
    (up : Bool) (s : AuthSession) (t : Accounts) → Adds t (create_auth_session up s t)
unfolding create_auth_session
create_auth_session-Adds up s t =
    either_way (takes_session up s t) t (record t { auth_sessions = t.auth_sessions ++ s ∷ [] })
      (record {
        new_orgs = [];
        new_users = [];
        new_sessions = s ∷ [];
        orgs_eq = sym (append-nil t.orgs);
        users_eq = sym (append-nil t.users);
        sessions_eq = refl;
      })

module _ (l : Libraries) (r : Random) (up : Up) (now : ℕ) where
  pub auth_create_session-Opens :
      (user_id org_id : String) (t : Accounts)
      → Opens t (auth_create_session l r up now user_id org_id t)
  unfolding auth_create_session
  auth_create_session-Opens user_id org_id t = at_option (Opens t) r.token tt (λ token h.
      at_option (Opens t)
        (create_auth_session up.new_session (session_of l r now user_id org_id token) t) tt
        (λ stored e.
          subst (Adds t) e
            (create_auth_session-Adds up.new_session (session_of l r now user_id org_id token) t)))

  -- What a handler leaves has grown.
  abbrev pub Grows : Accounts → Accounts × Reply → Type 0
  Grows t (t', reply) = Grown t t'

  pub after_creation-Grows :
      (u : User) (org : Org) (t : Accounts) (o : Option (Accounts × String × ℕ))
      → Opens t o
      → Grows t (after_creation l u org t o)
  after_creation-Grows u org t none g = Grown-refl t
  after_creation-Grows u org t (some (stored, token, expires_at)) g = g

  pub create_account-Grows :
      (org : Org) (u : User) (t : Accounts) → Grows t (create_account l r up now org u t)
  unfolding create_account
  create_account-Grows org u t =
      at_option (Grows t) (create_org up.new_org org t) (Grown-refl t) (λ with_org e.
        let added : Grown t with_org = subst (Adds t) e (create_org-Adds up.new_org org t) in
        at_option (Grows t) (create_user up.new_user u with_org) added (λ with_user h.
          Grown-trans
            (Grown-trans added (subst (Adds with_org) h (create_user-Adds up.new_user u with_org)))
            (after_creation-Grows u org with_user
              (auth_create_session l r up now u.id org.id with_user)
              (auth_create_session-Opens u.id org.id with_user))))

  register_email-Grows :
      (org_name slug email : String) (password : Bytes) (t : Accounts)
      → Grows t (register_email l r up now org_name slug email password t)
  unfolding register_email
  register_email-Grows org_name slug email password t =
      at_option (Grows t) (user_by_email up.emails email t) (Grown-refl t) (λ found e.
        at_option (Grows t) found
          (at_result (Grows t) (l.generate_from_password password) (λ e. Grown-refl t)
            (λ hash e. create_account-Grows (org_of l r org_name slug) (user_of l r email hash) t))
          (λ existing h. Grown-refl t))

  pub register-Grows :
      (q : Option RegisterRequest) (t : Accounts) → Grows t (register l r up now q t)
  unfolding register
  register-Grows none t = Grown-refl t
  register-Grows (some q) t = at_if (Grows t) (lacks_field l q) (Grown-refl t) (
      at_if (Grows t) (ltb (length q.password) 8) (Grown-refl t) (
        at_option (Grows t) (org_by_slug up.slugs (slug_of l (l.trim_space q.org_name)) t)
          (Grown-refl t)
          (λ found e.
            at_option (Grows t) found
              (register_email-Grows (l.trim_space q.org_name) (slug_of l (l.trim_space q.org_name))
                (email_of l q.email) q.password t)
              (λ existing h. Grown-refl t))))

  open_session-Grows :
      (u : User) (t : Accounts) (o : Option (Accounts × String × ℕ))
      → Opens t o
      → Grows t (open_session l u t o)
  open_session-Grows u t none g = Grown-refl t
  open_session-Grows u t (some (stored, token, expires_at)) g = g

  check_login-Grows :
      (password : Bytes) (o : Option (Option User)) (t : Accounts)
      → Grows t (check_login l r up now password o t)
  unfolding check_login
  check_login-Grows password none t = Grown-refl t
  check_login-Grows password (some none) t = Grown-refl t
  check_login-Grows password (some (some u)) t =
      at_if (Grows t) (l.compare_hash_and_password u.password_hash password)
        (open_session-Grows u t (auth_create_session l r up now u.id u.org_id t)
          (auth_create_session-Opens u.id u.org_id t))
        (Grown-refl t)

  pub login-Grows : (q : Option LoginRequest) (t : Accounts) → Grows t (login l r up now q t)
  unfolding login
  login-Grows none t = Grown-refl t
  login-Grows (some q) t =
      at_if (Grows t) (str_eq (email_of l q.email) "" || is_empty q.password) (Grown-refl t)
        (check_login-Grows q.password (user_by_email up.emails (email_of l q.email) t) t)
