-- ===== src/Flagging.antt =====
-- internal/flagging/flagger.go. Scores are floats of the interface; logging is left out.
pub mod Levels
pub mod Reasons
mod Examples
use Prim.Native.String.{◌++◌ as str_append}
use ajah.Prelude.{Bool, true, false, ◌||◌, String, str_eq, List, [], ◌∷◌, ◌++◌, if◌then◌else◌}
use ajah.Float.{Float64}

-- The strings "low", "medium" and "high".
pub data RiskLevel : Type 0 where
  low medium high : RiskLevel

abbrev pub is_high : RiskLevel → Bool
is_high high = true
is_high _ = false

abbrev pub is_medium : RiskLevel → Bool
is_medium medium = true
is_medium _ = false

abbrev pub is_low : RiskLevel → Bool
is_low low = true
is_low _ = false

-- contains
unfoldable pub contains : List String → String → Bool
contains [] item = false
contains (s ∷ slice) item = if str_eq s item then true else contains slice item

abbrev pub well_grounded : String
well_grounded = "Response is well-grounded and consistent"

abbrev pub contradicted_reason : String
contradicted_reason = "Response contradicts the provided source document"

abbrev pub unsupported_reason : String
unsupported_reason = "Response contains claims not found in source document"

-- if test { reasons = append(reasons, reason) }
unfoldable pub append_if : Bool → String → List String → List String
append_if test reason reasons = if test then reasons ++ reason ∷ [] else reasons

module _ (f : Float64) where
  open f use {F, lit, ltb, leb, fixed}

  pub record RiskFlag : Type 0 where
    pub request_id : String
    pub session_id : String
    pub hallucination_risk : F
    pub grounding_score : F
    pub risk_level : RiskLevel
    pub reasons : List String
    pub should_warn : Bool

  unfoldable pub compute_risk_level : F → F → RiskLevel
  compute_risk_level hallucination grounding =
      if ltb (lit 7 1) hallucination || ltb grounding (lit 3 1)
      then high
      else if leb (lit 4 1) hallucination || leb grounding (lit 5 1)
      then medium
      else low

  -- A reason that ends in a score with two decimals and a bracket.
  abbrev scored : String → F → String
  scored text score = str_append text (str_append (fixed 2 score) ")")

  unfoldable pub build_reasons : F → F → F → F → F → RiskLevel → List String → List String
  build_reasons hallucination grounding claim_density_risk hedge_risk drift_risk risk_level flags =
      append_if (is_low risk_level) well_grounded (
        append_if (ltb (lit 5 1) drift_risk)
          (scored
            "Narrative drift detected — model position reversed across session turns (drift risk: "
            drift_risk)
          (append_if (ltb (lit 5 1) hedge_risk)
            (scored "Overconfident response detected on complex question (hedge risk: " hedge_risk)
            (append_if (contains flags "toxicity_detected")
              "Toxic or harmful content detected in response"
              (append_if (contains flags "high_claim_density")
                (scored
                  "High claim density detected — response contains many specific claims on low-context prompt (risk: "
                  claim_density_risk)
                (append_if (leb (lit 4 1) hallucination)
                  (scored "High hallucination signal detected (score: " hallucination)
                  (append_if (leb grounding (lit 5 1))
                    (scored "Response shows weak grounding in the prompt (score: " grounding)
                    []))))))

  -- The switch on the verdict of the retrieval check; any other string changes nothing.
  unfoldable pub apply_rag_verdict : RiskFlag → String → RiskFlag
  apply_rag_verdict flag rag_verdict =
      if str_eq rag_verdict "contradicted"
      then record flag {
        risk_level = high;
        reasons = flag.reasons ++ contradicted_reason ∷ [];
        should_warn = true;
      }
      else if str_eq rag_verdict "unsupported"
      then (if is_high flag.risk_level
          then record flag { reasons = flag.reasons ++ unsupported_reason ∷ [] }
          else record flag {
            risk_level = medium;
            reasons = flag.reasons ++ unsupported_reason ∷ [];
            should_warn = true;
          })
      else flag

  -- The arguments of Evaluate that the scorer computed.
  pub record Scores : Type 0 where
    pub hallucination_score : F
    pub factual_consistency_score : F
    pub claim_density_risk : F
    pub hedge_risk : F
    pub drift_risk : F
    pub flags : List String
    pub rag_verdict : String

  unfoldable pub evaluate : String → String → Scores → RiskFlag
  evaluate request_id session_id s =
      let level = compute_risk_level s.hallucination_score s.factual_consistency_score in
      apply_rag_verdict
        (record {
          request_id = request_id;
          session_id = session_id;
          hallucination_risk = s.hallucination_score;
          grounding_score = s.factual_consistency_score;
          risk_level = level;
          reasons =
              build_reasons s.hallucination_score s.factual_consistency_score s.claim_density_risk
                s.hedge_risk s.drift_risk level s.flags;
          should_warn = is_high level || is_medium level;
        })
        s.rag_verdict
