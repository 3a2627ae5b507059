-- ===== src/Security/Scores.antt =====
-- The three risk scores through the loop: they stay between 0 and 1, rise at every match, and are
-- untouched without one.
use ajah.Prelude.{
  ◌≡◌, refl, sym, subst, ◌∙◌, List, [], ◌∷◌, ◌⊎◌, inl, inr, Bool, true, false, Option, none, some,
  Option-cases, any, All, arith,
}
use ajah.Text.{Bytes}
use ajah.Float.{Float64, IsOrdered}
use ajah.Security.{
  ThreatKind, prompt_injection, jailbreak, data_exfiltration, ThreatMatch, Compile, Pattern, Tally,
  count_match, try_pattern, try_patterns,
}

abbrev pub is_some {ℓ} : {A : Type ℓ} → Option A → Bool
is_some none = false
is_some (some _) = true

module _ (f : Float64) (o : IsOrdered f) (compile : Compile) where
  open f use {F, lit, leb}

  abbrev pub InUnit : F → Type 0
  InUnit x = (leb (lit 0 0) x ≡ true) × (leb x (lit 10 1) ≡ true)

  -- No weight in the table is below 0.75.
  abbrev pub Weighs : F → Type 0
  Weighs w = (leb (lit 75 2) w ≡ true) × (leb w (lit 10 1) ≡ true)

  pub record IsBounded (t : Tally f compile) : Type 0 where
    pub inj : InUnit t.inj_score
    pub jail : InUnit t.jail_score
    pub exfil : InUnit t.exfil_score

  -- Some score has reached 0.75.
  pub data IsHot (t : Tally f compile) : Type 0 where
    inj : leb (lit 75 2) t.inj_score ≡ true → IsHot t
    jail : leb (lit 75 2) t.jail_score ≡ true → IsHot t
    exfil : leb (lit 75 2) t.exfil_score ≡ true → IsHot t

  abbrev pub matches : Bytes → Pattern f compile → Bool
  matches prompt p = is_some (p.re prompt)

  literals :
      (leb (lit 10 1) (lit 10 1) ≡ true)
      × (leb (lit 0 0) (lit 10 1) ≡ true)
      × (leb (lit 75 2) (lit 10 1) ≡ true)
      × (leb (lit 0 0) (lit 75 2) ≡ true)
  literals = ground (
    arith,
    o.lit_pad 0 0,
    o.lit_pad 0 1,
    o.lit_pad 10 1,
    o.lit_le 10 10 1,
    o.lit_le 0 10 1,
    o.lit_le 75 100 2,
    o.lit_le 0 75 2,
  )

  -- Adding a weight to a score, capped at 1.
  abbrev bump : F → F → F
  bump s w = f.fmin (lit 10 1) (f.add s w)

  bump_lem :
      (s w : F)
      → InUnit s
      → Weighs w
      → InUnit (bump s w) × (leb s (bump s w) ≡ true) × (leb (lit 75 2) (bump s w) ≡ true)
  bump_lem s w p q = ground (
    arith,
    literals,
    o.le_trans (lit 0 0) (lit 75 2) w,
    o.add_nonneg s w,
    o.le_refl_right (lit 0 0) (f.add s w),
    o.le_refl_left s (lit 10 1),
    o.le_refl_left w (lit 10 1),
    o.le_add_left s w,
    o.le_add_right s w,
    o.le_trans (lit 75 2) w (f.add s w),
    o.min_choice (lit 10 1) (f.add s w),
    o.min_le_left (lit 10 1) (f.add s w),
  )

  -- The pattern counts, at the kind that it has.
  count_match-IsBounded :
      (k : ThreatKind) (m : ThreatMatch) (w : F) (t : Tally f compile)
      → Weighs w
      → IsBounded t
      → IsBounded (count_match f compile k m w t)
  unfolding count_match
  count_match-IsBounded prompt_injection m w t q b = record {
    inj = (bump_lem t.inj_score w b.inj q).0;
    jail = b.jail;
    exfil = b.exfil;
  }
  count_match-IsBounded jailbreak m w t q b = record {
    inj = b.inj;
    jail = (bump_lem t.jail_score w b.jail q).0;
    exfil = b.exfil;
  }
  count_match-IsBounded data_exfiltration m w t q b = record {
    inj = b.inj;
    jail = b.jail;
    exfil = (bump_lem t.exfil_score w b.exfil q).0;
  }

  count_match-IsHot :
      (k : ThreatKind) (m : ThreatMatch) (w : F) (t : Tally f compile)
      → Weighs w
      → IsBounded t
      → IsHot (count_match f compile k m w t)
  unfolding count_match
  count_match-IsHot prompt_injection m w t q b = IsHot.inj (bump_lem t.inj_score w b.inj q).2
  count_match-IsHot jailbreak m w t q b = IsHot.jail (bump_lem t.jail_score w b.jail q).2
  count_match-IsHot data_exfiltration m w t q b = IsHot.exfil (bump_lem t.exfil_score w b.exfil q).2

  -- A round leaves the scores alone if the pattern does not match, and makes one of them hot if it does.
  abbrev RoundOf : Bytes → Pattern f compile → Tally f compile → Type 0
  RoundOf prompt p t =
      ((matches prompt p ≡ false) × (try_pattern f compile prompt p t ≡ t))
      ⊎ ((matches prompt p ≡ true) × IsHot (try_pattern f compile prompt p t))

  try_pattern-Round :
      (prompt : Bytes) (p : Pattern f compile) (t : Tally f compile)
      → Weighs p.weight
      → IsBounded t
      → RoundOf prompt p t × IsBounded (try_pattern f compile prompt p t)
  unfolding try_pattern
  try_pattern-Round prompt p t q b = elim (Option-cases (p.re prompt)) [
    | inl e ↦ rw (e, try_pattern) (inl (refl, refl), b)
    | inr (loc, e) ↦
        rw (e, try_pattern)
          (
            inr (refl, count_match-IsHot p.kind _ p.weight t q b),
            count_match-IsBounded p.kind _ p.weight t q b,
          )
  ]

  pub try_patterns-Scores :
      (prompt : Bytes) (ps : List (Pattern f compile)) (t : Tally f compile)
      → All (λ p. Weighs p.weight) ps
      → IsBounded t
      → IsBounded (try_patterns f compile prompt ps t)
        × (((any (matches prompt) ps ≡ false) × (try_patterns f compile prompt ps t ≡ t))
            ⊎ ((any (matches prompt) ps ≡ true) × IsHot (try_patterns f compile prompt ps t)))
  unfolding try_patterns
  try_patterns-Scores prompt [] t q b = (b, inl (refl, refl))
  try_patterns-Scores prompt (p ∷ ps) t q b =
      let (round, b') = try_pattern-Round prompt p t q.0 b in
      let (b'', rest) = try_patterns-Scores prompt ps (try_pattern f compile prompt p t) q.1 b' in
      (
        b'',
        elim round [
          | inl (miss, same) ↦ elim rest [
            | inl (misses, all_same) ↦ inl (rw (miss, misses), all_same ∙ same)
            | inr (hit, hot) ↦ inr (rw (miss, hit), hot)
          ]
          | inr (hit, hot) ↦ inr (
            rw hit,
            elim rest [
              | inl (_, all_same) ↦ subst IsHot (sym all_same) hot
              | inr (_, hotter) ↦ hotter
            ],
          )
        ],
      )
