-- ===== src/Gateway/Judging.antt =====
-- The flag of a response, in the processing of an event in cmd/gateway/main.go: the scorer, Evaluate, and
-- the second model. `text` turns bytes into a text.
use Prim.Native.String.{◌++◌ as str_append}
use ajah.Prelude.{
  Bool, true, false, ◌&&◌, not, String, str_eq, List, [], ◌∷◌, ◌++◌, Option, none, some, Result, ok,
  err, ◌==◌, if◌then◌else◌,
}
use ajah.Text.{Bytes}
use ajah.Float.{Float64}
use ajah.Proxy.{Event}
use ajah.Flagging.{medium, is_low, RiskFlag, Scores, evaluate}
use ajah.Crossmodel.{Verdict, agree, partial, disagree, Peer, VerificationResult, CallError, verify}
use ajah.Db.Settings.{Caches, FeatureSetting, feature_setting_for}
use ajah.Gateway.Scoring.{Scorer, ScorerOutcome, call_scorer}

abbrev pub agrees : Verdict → Bool
agrees agree = true
agrees partial = false
agrees disagree = false

module _ (f : Float64) where
  abbrev pub scores_of : ScorerOutcome f → Scores f
  scores_of o = record {
    hallucination_score = o.hallucination_score;
    factual_consistency_score = o.factual_consistency_score;
    claim_density_risk = o.claim_density_risk;
    hedge_risk = o.hedge_risk;
    drift_risk = o.drift_risk;
    flags = o.flags;
    rag_verdict = o.rag_verdict;
  }

  -- The setting of a feature that has a second model to ask.
  unfoldable pub second_model : Caches f → String → Option (FeatureSetting f)
  second_model caches feature =
      if str_eq feature "" then none else elim (feature_setting_for f caches feature) [
        | none ↦ none
        | some s ↦
            if s.cross_model_enabled
              && not (str_eq s.cross_model_provider_url "")
              && not (str_eq s.cross_model_api_key "")
              && not (str_eq s.cross_model_model "")
            then some s
            else none
      ]

  abbrev pub dissent : VerificationResult f → String
  dissent r =
      str_append "Cross-model disagreement detected (agreement: "
        (str_append (f.fixed 2 r.agreement_score) ")")

  -- A second model that does not agree adds a reason, and raises a low level.
  unfoldable pub lift : VerificationResult f → RiskFlag f → RiskFlag f
  lift r flag =
      if agrees r.verdict
      then flag
      else if is_low flag.risk_level
      then record flag {
        reasons = flag.reasons ++ dissent r ∷ [];
        risk_level = medium;
        should_warn = true;
      }
      else record flag { reasons = flag.reasons ++ dissent r ∷ [] }

  -- The flag, and what the second model says, if it is asked and answers.
  pub record Judged : Type 0 where
    pub flag : RiskFlag f
    pub second : Option (VerificationResult f)

  -- What the second model says; an error is only logged. The verifier stays within its arrays, so that
  -- it gives one or the other.
  abbrev pub answered :
      Option (Result CallError (VerificationResult f)) → Option (VerificationResult f)
  answered none = none
  answered (some (err e)) = none
  answered (some (ok r)) = some r

  abbrev pub judged : RiskFlag f → Option (VerificationResult f) → Judged
  judged flag none = record { flag = flag; second = none }
  judged flag (some r) = record { flag = lift r flag; second = some r }

  module _ (s : Scorer f) (peer : Peer f) (scorer_url : String) (text : Bytes → String)
      (caches : Caches f) {Int Scan : Type 0} where
    unfoldable pub ask_second : Event Int Scan → Option (VerificationResult f)
    ask_second event = elim (second_model caches event.feature_name) [
      | none ↦ none
      | some setting ↦ answered (
          verify f peer scorer_url (text event.prompt) (text event.response) (text event.model)
            setting.cross_model_provider_url setting.cross_model_api_key setting.cross_model_model)
    ]

    -- Of a response with status 200 only.
    unfoldable pub judge : Event Int Scan → Option (List Bytes) → Option Judged
    judge event turns =
        if event.status_code == 200
        then some (
            judged
              (evaluate f event.request_id event.session_id
                (scores_of (call_scorer f s event turns)))
              (ask_second event))
        else none
