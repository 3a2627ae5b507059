-- ===== src/Flagging/Levels.antt =====
-- The level of a flag, and when it warns.
use ajah.Prelude.{ℕ, max, ◌≤◌, ◌≡◌, ap, true, not, String, str_eq, arith, if◌then◌else◌}
use ajah.Float.{Float64, IsOrdered}
use ajah.Flagging.{
  RiskLevel, low, medium, high, is_low, Scores, compute_risk_level, apply_rag_verdict, evaluate,
}

abbrev pub rank : RiskLevel → ℕ
rank low = 0
rank medium = 1
rank high = 2

-- The least level that a verdict of the retrieval check asks for.
abbrev pub verdict_level : String → RiskLevel
verdict_level v =
    if str_eq v "contradicted" then high else if str_eq v "unsupported" then medium else low

module _ (f : Float64) where
  -- The level of a flag is the higher of the level of the two scores and of the level that the
  -- verdict asks for: "high" if "contradicted", "medium" if "unsupported", else "low".
  pub rank-evaluate :
      (request_id session_id : String) (s : Scores f)
      → rank (evaluate f request_id session_id s).risk_level
        ≡ max
            (rank (compute_risk_level f s.hallucination_score s.factual_consistency_score))
            (rank (verdict_level s.rag_verdict))
  unfolding evaluate apply_rag_verdict
  rank-evaluate r i s = ground arith

  -- A flag warns exactly when its level is not "low".
  pub warns_iff :
      (request_id session_id : String) (s : Scores f)
      → (evaluate f request_id session_id s).should_warn
        ≡ not (is_low (evaluate f request_id session_id s).risk_level)
  unfolding evaluate apply_rag_verdict
  warns_iff r i s = ground arith

  module _ (o : IsOrdered f) where
    pub compute_risk_level_mono :
        (h h' g g' : f.F)
        → f.leb h h' ≡ true
        → f.leb g' g ≡ true
        → rank (compute_risk_level f h g) ≤ rank (compute_risk_level f h' g')
    unfolding compute_risk_level
    compute_risk_level_mono h h' g g' p q = ground (
      arith,
      o.lt_of_lt_of_le (f.lit 7 1) h h',
      o.lt_of_le_of_lt g' g (f.lit 3 1),
      o.le_trans (f.lit 4 1) h h',
      o.le_trans g' g (f.lit 5 1),
    )

    -- A higher hallucination score with a grounding score no higher never gives a lower level, under
    -- the same verdict.
    pub evaluate_mono :
        (request_id session_id : String) (s s' : Scores f)
        → f.leb s.hallucination_score s'.hallucination_score ≡ true
        → f.leb s'.factual_consistency_score s.factual_consistency_score ≡ true
        → s.rag_verdict ≡ s'.rag_verdict
        → rank (evaluate f request_id session_id s).risk_level
          ≤ rank (evaluate f request_id session_id s').risk_level
    evaluate_mono r i s s' p q e = omega (
      arith,
      rank-evaluate r i s,
      rank-evaluate r i s',
      ap (λ v. rank (verdict_level v)) e,
      compute_risk_level_mono s.hallucination_score s'.hallucination_score
          s.factual_consistency_score s'.factual_consistency_score p q,
    )
