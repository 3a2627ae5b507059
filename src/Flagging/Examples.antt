-- ===== src/Flagging/Examples.antt =====
-- The theorems about flags at concrete scores, in thousandths, and tests.
use ajah.Prelude.{ℕ, ◌≡◌, refl, true, [], ◌∷◌, String}
use ajah.Float.Scaled.{scaled}
use ajah.Flagging.{
  medium, Scores, contains, well_grounded, compute_risk_level, evaluate, apply_rag_verdict,
}
use ajah.Flagging.Levels.{rank, rank-evaluate}
use ajah.Flagging.Reasons.{contradicted_well_grounded}

abbrev scores : ℕ → ℕ → String → Scores scaled
scores h g verdict = record {
  hallucination_score = h;
  factual_consistency_score = g;
  claim_density_risk = 0;
  hedge_risk = 0;
  drift_risk = 0;
  flags = "toxicity_detected" ∷ [];
  rag_verdict = verdict;
}

weak_grounding : (evaluate scaled "r" "s" (scores 100 450 "supported")).risk_level ≡ medium
unfolding evaluate apply_rag_verdict compute_risk_level
weak_grounding = refl

rank-evaluate_example : rank (evaluate scaled "r" "s" (scores 100 900 "unsupported")).risk_level ≡ 1
unfolding compute_risk_level
rank-evaluate_example = rank-evaluate scaled "r" "s" (scores 100 900 "unsupported")

contradicted_well_grounded_example :
    contains (evaluate scaled "r" "s" (scores 100 900 "contradicted")).reasons well_grounded ≡ true
unfolding compute_risk_level
contradicted_well_grounded_example =
    (contradicted_well_grounded scaled "r" "s" (scores 100 900 "contradicted") refl refl).1
