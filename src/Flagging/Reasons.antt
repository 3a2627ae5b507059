-- ===== src/Flagging/Reasons.antt =====
-- The reasons that a flag carries.
use ajah.Prelude.{
  ◌≤◌, ◌≡◌, refl, Bool, true, ◌||◌, String, eq_iff, ◌⊎◌, inl, inr, Bool-cases, List, [], ◌∷◌, ◌++◌,
  arith, length, length-append,
}
use ajah.Float.{Float64, IsOrdered}
use ajah.Flagging.{
  RiskFlag, low, high, is_low, Scores, contains, append_if, well_grounded, compute_risk_level,
  build_reasons, apply_rag_verdict, evaluate, contradicted_reason, unsupported_reason,
}

contains-append :
    (xs ys : List String) (r : String) → contains (xs ++ ys) r ≡ (contains xs r || contains ys r)
unfolding contains
contains-append [] ys r = refl
contains-append (x ∷ xs) ys r = ground (arith, contains-append xs ys r)

contains-last : (xs : List String) (r : String) → contains (xs ++ r ∷ []) r ≡ true
unfolding contains
contains-last xs r = ground (arith, contains-append xs (r ∷ []) r, eq_iff r r)

contains-append_left :
    (xs ys : List String) (r : String) → contains xs r ≡ true → contains (xs ++ ys) r ≡ true
contains-append_left xs ys r h = rw (contains-append xs ys r, h)

nonempty-append_if :
    (test : Bool) (r : String) (xs : List String)
    → (test ≡ true) ⊎ (1 ≤ length xs)
    → 1 ≤ length (append_if test r xs)
unfolding append_if
nonempty-append_if test r xs h = ground (arith, length-append xs (r ∷ []))

module _ (f : Float64) (o : IsOrdered f) where
  -- A level above "low" comes with a score that is reported.
  reported :
      (h g : f.F)
      → (is_low (compute_risk_level f h g) || f.leb (f.lit 4 1) h || f.leb g (f.lit 5 1)) ≡ true
  unfolding compute_risk_level
  reported h g = ground (
    arith,
    o.lit_le 4 7 1,
    o.le_of_lt (f.lit 7 1) h,
    o.le_trans (f.lit 4 1) (f.lit 7 1) h,
    o.lit_le 3 5 1,
    o.le_of_lt g (f.lit 3 1),
    o.le_trans g (f.lit 3 1) (f.lit 5 1),
  )

  build_reasons-nonempty :
      (h g c e d : f.F) (flags : List String)
      → 1 ≤ length (build_reasons f h g c e d (compute_risk_level f h g) flags)
  unfolding build_reasons
  build_reasons-nonempty h g c e d flags = elim (Bool-cases (f.leb g (f.lit 5 1))) [
    | inl p ↦ keep _ _ _ (
        keep _ _ _
          (keep _ _ _ (keep _ _ _ (keep _ _ _ (keep _ _ _ (nonempty-append_if _ _ _ (inl p)))))))
    | inr p ↦ elim (Bool-cases (f.leb (f.lit 4 1) h)) [
      | inl q ↦
          keep _ _ _
            (keep _ _ _ (keep _ _ _ (keep _ _ _ (keep _ _ _ (nonempty-append_if _ _ _ (inl q))))))
      | inr q ↦ nonempty-append_if _ _ _ (inl (ground (arith, reported h g)))
    ]
  ]
    where
      keep :
          (test : Bool) (r : String) (xs : List String)
          → 1 ≤ length xs
          → 1 ≤ length (append_if test r xs)
      keep test r xs k = nonempty-append_if test r xs (inr k)

  grows-apply_rag_verdict :
      (flag : RiskFlag f) (v : String)
      → length flag.reasons ≤ length (apply_rag_verdict f flag v).reasons
  unfolding apply_rag_verdict
  grows-apply_rag_verdict flag v = ground (
    arith,
    length-append flag.reasons (contradicted_reason ∷ []),
    length-append flag.reasons (unsupported_reason ∷ []),
  )

  -- Every flag gives at least one reason.
  pub evaluate-reasons :
      (request_id session_id : String) (s : Scores f)
      → 1 ≤ length (evaluate f request_id session_id s).reasons
  unfolding evaluate
  evaluate-reasons r i s = omega (
    arith,
    grows-apply_rag_verdict,
    build_reasons-nonempty s.hallucination_score s.factual_consistency_score s.claim_density_risk
        s.hedge_risk s.drift_risk s.flags,
  )

-- A response that the scores find well grounded and that contradicts its source is flagged "high",
-- with the reason that it is well grounded beside the reason that it contradicts its source.
pub contradicted_well_grounded :
    (f : Float64) (request_id session_id : String) (s : Scores f)
    → compute_risk_level f s.hallucination_score s.factual_consistency_score ≡ low
    → s.rag_verdict ≡ "contradicted"
    → let flag = evaluate f request_id session_id s in
      (flag.risk_level ≡ high)
      × (contains flag.reasons well_grounded ≡ true)
      × (contains flag.reasons contradicted_reason ≡ true)
unfolding evaluate apply_rag_verdict build_reasons append_if
contradicted_well_grounded f r i s p q =
    rw (p, q)
      (
        refl,
        contains-append_left _ _ _ (contains-last _ well_grounded),
        contains-last _ contradicted_reason,
      )
