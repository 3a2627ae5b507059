-- ===== src/Gateway/Scoring.antt =====
-- callScorer of cmd/gateway/main.go. encoding/json and net/http are parameters, as are the response texts
-- of the session's earlier traces; a text is a list of bytes. Log lines and the time limit are left out.
use ajah.Prelude.{ℕ, suc, String, str_eq, List, [], ◌∷◌, Option, none, some, ◌==◌, if◌then◌else◌}
use ajah.Text.{Bytes, is_empty}
use ajah.Float.{Float64}
use ajah.Proxy.{Event}

-- The turns with their numbers; one without a text is left out, and counted.
unfoldable pub turns_from : ℕ → List Bytes → List (ℕ × Bytes)
turns_from i [] = []
turns_from i (turn ∷ turns) =
    let rest = turns_from (suc i) turns in if is_empty turn then rest else (i, turn) ∷ rest

pub record ScorerPayload : Type 0 where
  pub request_id : String
  pub prompt : Bytes
  pub response : Bytes
  pub model : Bytes
  pub feature_name : String
  pub source_context : String
  pub session_history : List (ℕ × Bytes)

module _ (f : Float64) where
  pub record ScorerOutcome : Type 0 where
    pub overall_quality_score : f.F
    pub hallucination_score : f.F
    pub factual_consistency_score : f.F
    pub toxicity_score : f.F
    pub claim_density_risk : f.F
    pub hedge_risk : f.F
    pub drift_risk : f.F
    pub drift_verdict : String
    pub flags : List String
    pub rag_verdict : String
    pub rag_grounding_score : f.F
    pub rag_contradiction_score : f.F
    pub rag_supported_claims : List String
    pub rag_unsupported_claims : List String
    pub rag_contradicted_claims : List String

  abbrev zero_float : f.F
  zero_float = f.lit 0 0

  abbrev pub zero_outcome : ScorerOutcome
  zero_outcome = record {
    overall_quality_score = zero_float;
    hallucination_score = zero_float;
    factual_consistency_score = zero_float;
    toxicity_score = zero_float;
    claim_density_risk = zero_float;
    hedge_risk = zero_float;
    drift_risk = zero_float;
    drift_verdict = "";
    flags = [];
    rag_verdict = "";
    rag_grounding_score = zero_float;
    rag_contradiction_score = zero_float;
    rag_supported_claims = [];
    rag_unsupported_claims = [];
    rag_contradicted_claims = [];
  }

  -- The codec, and a POST to the scorer: none if the request cannot be built or sent, else the status and
  -- the body, if it can be read.
  pub record Scorer : Type 1 where
    pub Body : Type 0
    pub encode : ScorerPayload → Option Body
    pub post : Body → Option (ℕ × Option Body)
    pub decode : Body → Option ScorerOutcome

  module _ (s : Scorer) where
    -- Reads the reply.
    unfoldable pub read_outcome : Option (ℕ × Option s.Body) → ScorerOutcome
    read_outcome none = zero_outcome
    read_outcome (some (status, none)) = zero_outcome
    read_outcome (some (status, some raw)) =
        if status == 200
        then (elim (s.decode raw) [ none ↦ zero_outcome | some outcome ↦ outcome ])
        else zero_outcome

    module _ {Int Scan : Type 0} where
      -- `turns` is what GetTurns gives, if it gives no error.
      abbrev pub payload_of : Event Int Scan → Option (List Bytes) → ScorerPayload
      payload_of event turns = record {
        request_id = event.request_id;
        prompt = event.prompt;
        response = event.response;
        model = event.model;
        feature_name = event.feature_name;
        source_context = event.source_context;
        session_history =
            if str_eq event.session_id ""
            then []
            else elim turns [ none ↦ [] | some texts ↦ turns_from 0 texts ];
      }

      unfoldable pub call_scorer : Event Int Scan → Option (List Bytes) → ScorerOutcome
      call_scorer event turns = elim (s.encode (payload_of event turns)) [
        | none ↦ zero_outcome
        | some body ↦ read_outcome (s.post body)
      ]
