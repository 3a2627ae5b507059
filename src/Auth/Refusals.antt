-- ===== src/Auth/Refusals.antt =====
-- What a registration that fails half way leaves.

use ajah.Prelude.{
  ℕ, ◌≤◌, str_eq, ltb, length, String, List, ◌≡◌, ap, Bool, true, false, Option, none, some, arith,
}
use ajah.Text.{Bytes}
use ajah.Db.Accounts.{
  Accounts, Org, User, first, has_slug, create_org, create_user, user_by_email, org_by_slug,
}
use ajah.Auth.{
  Libraries, Random, Up, RegisterRequest, Reply, register, register_email, create_account,
  after_creation, slug_of, email_of, lacks_field, problem, Body, org_of, user_of,
  auth_create_session,
}
use ajah.Auth.Growth.{at_option, at_result, at_if}
use ajah.Auth.Members.{create_org-first}
use ajah.Auth.Logins.{Request, serve_all, first-serve_all}

abbrev is_half_done : Body → Bool
is_half_done (problem text) = str_eq text "failed to create user"
is_half_done body = false

-- The reply to a user who cannot be created goes with an organisation of the slug.
abbrev Leaves : String → Accounts × Reply → Type 0
Leaves slug (t, reply) =
    is_half_done reply.1 ≡ true → (o : Org) × (first (has_slug slug) t.orgs ≡ some o)

module _ (l : Libraries) (r : Random) (up : Up) (now : ℕ) where
  after_creation-Leaves :
      (slug : String) (u : User) (o : Org) (t : Accounts) (x : Option (Accounts × String × ℕ))
      → Leaves slug (after_creation l u o t x)
  after_creation-Leaves slug u o t none h = absurd (ground arith)
  after_creation-Leaves slug u o t (some (stored, token, expires_at)) h = absurd (ground arith)

  create_account-Leaves :
      (o : Org) (u : User) (t : Accounts) → Leaves o.slug (create_account l r up now o u t)
  unfolding create_account
  create_account-Leaves o u t =
      at_option (Leaves o.slug) (create_org up.new_org o t) (λ h. absurd (ground arith))
        (λ with_org e.
          at_option (Leaves o.slug) (create_user up.new_user u with_org)
            (λ h. (o, (create_org-first up.new_org o t with_org e).1))
            (λ with_user f.
              after_creation-Leaves o.slug u o with_user
                (auth_create_session l r up now u.id o.id with_user)))

  register_email-Leaves :
      (org_name slug email : String) (password : Bytes) (t : Accounts)
      → Leaves slug (register_email l r up now org_name slug email password t)
  unfolding register_email
  register_email-Leaves org_name slug email password t =
      at_option (Leaves slug) (user_by_email up.emails email t) (λ h. absurd (ground arith))
        (λ found e.
          at_option (Leaves slug) found
            (at_result (Leaves slug) (l.generate_from_password password)
              (λ e h. absurd (ground arith))
              (λ hash hashed.
                create_account-Leaves (org_of l r org_name slug) (user_of l r email hash) t))
            (λ existing h k. absurd (ground arith)))

  register-Leaves :
      (q : RegisterRequest) (t : Accounts)
      → Leaves (slug_of l (l.trim_space q.org_name)) (register l r up now (some q) t)
  unfolding register
  register-Leaves q t =
      let slug : String = slug_of l (l.trim_space q.org_name) in
      at_if (Leaves slug) (lacks_field l q) (λ h. absurd (ground arith))
        (at_if (Leaves slug) (ltb (length q.password) 8) (λ h. absurd (ground arith))
          (at_option (Leaves slug) (org_by_slug up.slugs slug t) (λ h. absurd (ground arith))
            (λ found e.
              at_option (Leaves slug) found
                (register_email-Leaves (l.trim_space q.org_name) slug (email_of l q.email)
                  q.password t)
                (λ existing h k. absurd (ground arith)))))

  taken :
      (r2 : Random) (up2 : Up) (later : ℕ) (q2 : RegisterRequest) (t : Accounts) (o : Org)
      → lacks_field l q2 ≡ false
      → 8 ≤ length q2.password
      → org_by_slug up2.slugs (slug_of l (l.trim_space q2.org_name)) t ≡ some (some o)
      → (register l r2 up2 later (some q2) t).1 ≡ (409, problem "organisation name already taken")
  unfolding register
  taken r2 up2 later q2 t o filled long there = ground arith

  -- A registration that fails as its user cannot be created leaves its organisation: after it and any
  -- requests of registrations, logins and logouts, whatever the server answers to them, a registration
  -- whose organisation's name has the same slug, the same one tried again for instance, is refused with
  -- status 409, as the name is taken, if its fields are filled in, its password has 8 bytes at least and
  -- the server answers the lookup of the slug.
  pub register-taken :
      (q : RegisterRequest) (t : Accounts)
      → (register l r up now (some q) t).1 ≡ (500, problem "failed to create user")
      → (between : List (Request l)) (r2 : Random) (up2 : Up) (later : ℕ) (q2 : RegisterRequest)
      → slug_of l (l.trim_space q2.org_name) ≡ slug_of l (l.trim_space q.org_name)
      → lacks_field l q2 ≡ false
      → 8 ≤ length q2.password
      → up2.slugs ≡ true
      → (register l r2 up2 later
          (some q2)
          (serve_all l between (register l r up now (some q) t).0)).1
        ≡ (409, problem "organisation name already taken")
  unfolding org_by_slug
  register-taken q t failed between r2 up2 later q2 same filled long slugs =
      let (o, there) = register-Leaves q t (ap (λ x. is_half_done x.1) failed) in
      let t1 : Accounts = serve_all l between (register l r up now (some q) t).0 in
      let kept : first (has_slug (slug_of l (l.trim_space q.org_name))) t1.orgs ≡ some o =
        first-serve_all l (has_slug (slug_of l (l.trim_space q.org_name))) o between
          (register l r up now (some q) t).0 there in
      taken r2 up2 later q2 t1 o filled long
        (ground (arith, kept, ap (λ s. first (has_slug s) t1.orgs) same))
