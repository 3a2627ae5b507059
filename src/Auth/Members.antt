-- ===== src/Auth/Members.antt =====
-- The accounts that a registration leaves, and that every request keeps.

use text.Mathlib.TextPositions.{eq_refl}
use ajah.Prelude.{
  ℕ, ltb, length, String, ◌≡◌, refl, ap, ◌∙◌, Bool, true, false, List, [], ◌∷◌, ◌++◌, some, ok, any,
  arith,
}
use ajah.Text.{Bytes}
use ajah.Db.Accounts.{
  Accounts, Org, User, first, has_email, has_user_id, has_org_id, has_slug, create_org, create_user,
  user_by_email, org_by_slug,
}
use ajah.Auth.{
  Libraries, Random, Up, RegisterRequest, Reply, register, create_account, register_email, org_of,
  user_of, slug_of, email_of, lacks_field, auth_create_session,
}
use ajah.Auth.Growth.{
  Grown, auth_create_session-Opens, after_creation-Grows, at_option, at_result, at_if,
}

module _ {A : Type 0} (p : A → Bool) where
  pub first-append : (xs ys : List A) (a : A) → first p xs ≡ some a → first p (xs ++ ys) ≡ some a
  unfolding first
  first-append [] ys a h = absurd (ground arith)
  first-append (x ∷ xs) ys a h = ground (arith, first-append xs ys a)

  pub first-new :
      (xs : List A) (a : A) → any p xs ≡ false → p a ≡ true → first p (xs ++ a ∷ []) ≡ some a
  unfolding first
  first-new [] a h e = ground arith
  first-new (x ∷ xs) a h e = ground (arith, first-new xs a)

module _ {A : Type 0} (p : A → Bool) where
  pub any-first : (xs : List A) (a : A) → first p xs ≡ some a → any p xs ≡ true
  unfolding first
  any-first [] a h = absurd (ground arith)
  any-first (x ∷ xs) a h = ground (arith, any-first xs a)

-- A user who is found by email and by id, with the organisation.
pub record IsMember (t : Accounts) (u : User) (o : Org) : Type 0 where
  pub by_email : first (has_email u.email) t.users ≡ some u
  pub by_id : first (has_user_id u.id) t.users ≡ some u
  pub org : first (has_org_id u.org_id) t.orgs ≡ some o

pub Grown-IsMember :
    {t t' : Accounts} {u : User} {o : Org} → Grown t t' → IsMember t u o → IsMember t' u o
Grown-IsMember {t} {t'} {u} {o} g m = record {
  by_email =
      ap (first (has_email u.email)) g.users_eq
      ∙ first-append (has_email u.email) t.users g.new_users u m.by_email;
  by_id =
      ap (first (has_user_id u.id)) g.users_eq
      ∙ first-append (has_user_id u.id) t.users g.new_users u m.by_id;
  org =
      ap (first (has_org_id u.org_id)) g.orgs_eq
      ∙ first-append (has_org_id u.org_id) t.orgs g.new_orgs o m.org;
}

pub create_org-first :
    (up : Bool) (o : Org) (t t' : Accounts)
    → create_org up o t ≡ some t'
    → (first (has_org_id o.id) t'.orgs ≡ some o) × (first (has_slug o.slug) t'.orgs ≡ some o)
unfolding create_org
create_org-first up o t t' h = ground (
  arith,
  eq_refl o.id,
  eq_refl o.slug,
  first-new (has_org_id o.id) t.orgs o,
  first-new (has_slug o.slug) t.orgs o,
)

create_user-first :
    (up : Bool) (u : User) (t t' : Accounts)
    → create_user up u t ≡ some t'
    → (first (has_user_id u.id) t'.users ≡ some u)
      × (first (has_email u.email) t'.users ≡ some u)
      × (t'.orgs ≡ t.orgs)
unfolding create_user
create_user-first up u t t' h = ground (
  arith,
  eq_refl u.id,
  eq_refl u.email,
  first-new (has_user_id u.id) t.users u,
  first-new (has_email u.email) t.users u,
)

module _ (l : Libraries) (r : Random) (up : Up) (now : ℕ) where
  -- A reply 201 goes with the member.
  abbrev Joins : User → Org → Accounts × Reply → Type 0
  Joins u o (t, reply) = reply.0 ≡ 201 → IsMember t u o

  create_account-Joins :
      (o : Org) (u : User) (t : Accounts)
      → u.org_id ≡ o.id
      → Joins u o (create_account l r up now o u t)
  unfolding create_account
  create_account-Joins o u t same =
      at_option (Joins u o) (create_org up.new_org o t) (λ h. absurd (omega arith))
        (λ with_org e.
          at_option (Joins u o) (create_user up.new_user u with_org) (λ h. absurd (omega arith))
            (λ with_user f. λ h.
              let (by_id, by_email, orgs) = create_user-first up.new_user u with_org with_user f in
              let (here, slug) = create_org-first up.new_org o t with_org e in
              Grown-IsMember
                (after_creation-Grows l r up now u o with_user
                  (auth_create_session l r up now u.id o.id with_user)
                  (auth_create_session-Opens l r up now u.id o.id with_user))
                (record {
                  by_email = by_email;
                  by_id = by_id;
                  org =
                      ap (λ id. first (has_org_id id) with_user.orgs) same
                      ∙ ap (first (has_org_id o.id)) orgs
                      ∙ here;
                })))

  -- A reply 201 goes with a member whose password was hashed.
  abbrev Registers : String → String → Bytes → Accounts × Reply → Type 0
  Registers org_name email password (t, reply) =
      reply.0 ≡ 201
      → (hash : String) × (l.generate_from_password password ≡ ok hash)
        × IsMember t (user_of l r email hash) (org_of l r org_name (slug_of l org_name))

  register_email-Registers :
      (org_name email : String) (password : Bytes) (t : Accounts)
      → Registers org_name email password
          (register_email l r up now org_name (slug_of l org_name) email password t)
  unfolding register_email
  register_email-Registers org_name email password t =
      at_option (Registers org_name email password) (user_by_email up.emails email t)
        (λ h. absurd (omega arith))
        (λ found e.
          at_option (Registers org_name email password) found
            (at_result (Registers org_name email password) (l.generate_from_password password)
              (λ e h. absurd (omega arith))
              (λ hash hashed h. (
                hash,
                hashed,
                create_account-Joins (org_of l r org_name (slug_of l org_name))
                    (user_of l r email hash) t refl h,
              )))
            (λ existing h. λ k. absurd (omega arith)))

  pub register-Registers :
      (q : RegisterRequest) (t : Accounts)
      → Registers
          (l.trim_space q.org_name)
          (email_of l q.email)
          q.password
          (register l r up now (some q) t)
  unfolding register
  register-Registers q t =
      let P : Accounts × Reply → Type 0 =
        Registers (l.trim_space q.org_name) (email_of l q.email) q.password in
      at_if P (lacks_field l q) (λ h. absurd (omega arith))
        (at_if P (ltb (length q.password) 8) (λ h. absurd (omega arith))
          (at_option P (org_by_slug up.slugs (slug_of l (l.trim_space q.org_name)) t)
            (λ h. absurd (omega arith))
            (λ found e.
              at_option P found
                (register_email-Registers (l.trim_space q.org_name) (email_of l q.email) q.password
                  t)
                (λ existing h. λ k. absurd (omega arith)))))
