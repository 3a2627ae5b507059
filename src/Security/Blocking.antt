-- ===== src/Security/Blocking.antt =====
-- When a prompt is blocked, and when it is only reported.
use ajah.Prelude.{
  ℕ, ◌*◌, ◌≤◌, ◌≡◌, ◌⊎◌, inl, inr, Bool, true, false, not, ◌&&◌, Bool-cases, any, All,
  if◌then◌else◌, arith,
}
use ajah.Text.{Bytes, is_empty, trim_space}
use ajah.Float.{Float64, IsOrdered}
use ajah.Security.{
  Compile, Tally, clean, suspicious, blocked, default_patterns, no_matches, new, try_patterns,
  conclude, scan,
}
use ajah.Security.Scores.{InUnit, Weighs, IsBounded, IsHot, matches, try_patterns-Scores}

module _ (f : Float64) (o : IsOrdered f) (compile : Compile) where
  open f use {F, lit, ltb, leb, fmax}

  tenths : (m : ℕ) → 8 ≤ m → m ≤ 10 → Weighs f o compile (lit m 1)
  tenths m lo hi =
      ground (arith, o.lit_pad m 1, o.lit_pad 10 1, o.lit_le 75 (10 * m) 2, o.lit_le m 10 1)

  hundredths : (m : ℕ) → 75 ≤ m → m ≤ 100 → Weighs f o compile (lit m 2)
  hundredths m lo hi = ground (arith, o.lit_pad 10 1, o.lit_le 75 m 2, o.lit_le m 100 2)

  default_patterns-Weighs : All (λ p. Weighs f o compile p.weight) (default_patterns f compile)
  unfolding default_patterns
  default_patterns-Weighs =
      let w8 = tenths 8 (omega arith) (omega arith) in
      let w9 = tenths 9 (omega arith) (omega arith) in
      let w75 = hundredths 75 (omega arith) (omega arith) in
      let w85 = hundredths 85 (omega arith) (omega arith) in
      let w95 = hundredths 95 (omega arith) (omega arith) in
      (
        w9,
        (
          w85,
          (
            w75,
            (
              w9,
              (
                w8,
                (
                  w85,
                  (w95, (w9, (w85, (w9, (w8, (w85, (w75, (w9, (w8, (w85, (w95, (w85, tt)))))))))))),
                ),
              ),
            ),
          ),
        ),
      )

  no_matches-IsBounded : IsBounded f o compile (no_matches f compile)
  no_matches-IsBounded =
      let zero_one : InUnit f o compile (lit 0 0) =
        ground (arith, o.lit_pad 0 0, o.lit_le 0 0 0, o.lit_le 0 10 1) in
      record { inj = zero_one; jail = zero_one; exfil = zero_one }

  -- The number that the verdict is drawn from.
  abbrev peak : Tally f compile → F
  peak t = fmax t.inj_score (fmax t.jail_score t.exfil_score)

  abbrev scores : Tally f compile → F × F × F
  scores t = (t.inj_score, t.jail_score, t.exfil_score)

  best-Ordered :
      (t : Tally f compile)
      → IsBounded f o compile t
      → (leb t.inj_score (peak t) ≡ true)
        × (leb t.jail_score (peak t) ≡ true)
        × (leb t.exfil_score (peak t) ≡ true)
  best-Ordered t b =
      let (i, j, e) = scores t in
      ground (
        arith,
        o.le_refl_left i (lit 10 1),
        o.le_refl_left j (lit 10 1),
        o.le_refl_left e (lit 10 1),
        o.le_max_left j e,
        o.le_max_right j e,
        o.le_refl_right j (fmax j e),
        o.le_max_left i (fmax j e),
        o.le_max_right i (fmax j e),
        o.le_trans j (fmax j e) (fmax i (fmax j e)),
        o.le_trans e (fmax j e) (fmax i (fmax j e)),
      )

  peak_of_IsHot :
      (t : Tally f compile)
      → IsBounded f o compile t
      → IsHot f o compile t
      → leb (lit 75 2) (peak t) ≡ true
  peak_of_IsHot t b h =
      let (i, j, e) = scores t in
      let ordered = best-Ordered t b in
      elim h [
        | IsHot.inj p ↦ o.le_trans (lit 75 2) i (peak t) p ordered.0
        | IsHot.jail p ↦ o.le_trans (lit 75 2) j (peak t) p ordered.1
        | IsHot.exfil p ↦ o.le_trans (lit 75 2) e (peak t) p ordered.2
      ]

  peak-no_matches :
      (th : F) → ltb (lit 0 0) th ≡ true → leb th (peak (no_matches f compile)) ≡ false
  peak-no_matches th h =
      ground (arith, o.lit_le 0 0 0, o.max_choice (lit 0 0) (lit 0 0), o.not_le_of_lt (lit 0 0) th)

  -- The test that the regular expressions and the white space test make of a prompt.
  abbrev pub is_flagged : Bytes → Bool
  is_flagged prompt =
      not (is_empty (trim_space prompt))
      && any (matches f o compile prompt) (default_patterns f compile)

  half-lt : (ltb (lit 0 0) (lit 5 1) ≡ true) × (leb (lit 5 1) (lit 75 2) ≡ true)
  half-lt = ground (arith, o.lit_lt 0 5 1, o.lit_pad 0 0, o.lit_pad 5 1, o.lit_le 50 75 2)

  -- What the loop leaves.
  abbrev swept : Bytes → Tally f compile
  swept prompt = try_patterns f compile prompt (default_patterns f compile) (no_matches f compile)

  flagged_cases :
      (prompt : Bytes)
      → let hit = any (matches f o compile prompt) (default_patterns f compile) in
        ((hit ≡ true) × (leb (lit 75 2) (peak (swept prompt)) ≡ true))
        ⊎ ((hit ≡ false) × (swept prompt ≡ no_matches f compile))
  flagged_cases prompt =
      let (b, cases) =
        try_patterns-Scores f o compile prompt (default_patterns f compile) (no_matches f compile)
          default_patterns-Weighs no_matches-IsBounded in
      elim cases [
        | inl (miss, same) ↦ inr (miss, same)
        | inr (hit, hot) ↦ inl (hit, peak_of_IsHot _ b hot)
      ]

  -- With a threshold above 0 and at most 0.75 (the gateway's is 0.7) a prompt is blocked, with the
  -- verdict "blocked", exactly when it is not blank and some pattern of the table matches it; any
  -- other prompt is clean.
  pub scan-blocks :
      (th : F) (prompt : Bytes)
      → ltb (lit 0 0) th ≡ true
      → leb th (lit 75 2) ≡ true
      → let r = scan f compile (new f compile th) prompt in
        (r.should_block ≡ is_flagged prompt)
        × (r.verdict ≡ (if is_flagged prompt then blocked else clean))
  unfolding scan new conclude
  scan-blocks th prompt pos low = ground (
    arith,
    flagged_cases prompt,
    half-lt,
    peak-no_matches th pos,
    peak-no_matches (lit 5 1),
    o.le_trans th (lit 75 2) (peak (swept prompt)) low,
  )

  -- With a threshold that is not above 0 (the gateway's default is 0) nothing is blocked, and the
  -- verdict is "suspicious" exactly when the prompt is not blank and some pattern matches it.
  pub scan-reports :
      (th : F) (prompt : Bytes)
      → ltb (lit 0 0) th ≡ false
      → let r = scan f compile (new f compile th) prompt in
        (r.should_block ≡ false) × (r.verdict ≡ (if is_flagged prompt then suspicious else clean))
  unfolding scan new conclude
  scan-reports th prompt off = ground (
    arith,
    flagged_cases prompt,
    half-lt,
    peak-no_matches (lit 5 1),
    o.le_trans (lit 5 1) (lit 75 2) (peak (swept prompt)),
  )

  -- The three risks of a scan are between 0 and 1, whatever the threshold.
  pub scan-InUnit :
      (th : F) (prompt : Bytes)
      → let r = scan f compile (new f compile th) prompt in
        InUnit f o compile r.injection_risk
        × InUnit f o compile r.jailbreak_risk
        × InUnit f o compile r.exfil_risk
  unfolding scan new conclude
  scan-InUnit th prompt =
      let (b, _) =
        try_patterns-Scores f o compile prompt (default_patterns f compile) (no_matches f compile)
          default_patterns-Weighs no_matches-IsBounded in
      let z = no_matches-IsBounded in
      elim (Bool-cases (is_empty (trim_space prompt))) [
        | inl blank ↦ rw blank (z.inj, z.jail, z.exfil)
        | inr text ↦ rw text (b.inj, b.jail, b.exfil)
      ]
