-- ===== src/Gateway/JudgeExamples.antt =====
-- The theorem about judging at a response that the scorer finds good and the second model does not agree
-- with.
use ajah.Prelude.{ℕ, max, ◌≡◌, refl, true, String, str_eq, [], ◌∷◌, none, some, if◌then◌else◌}
use ajah.Text.{Bytes, ascii}
use ajah.Float.Scaled.{scaled}
use ajah.Config.{pos}
use ajah.Proxy.{Event}
use ajah.Flagging.{compute_risk_level}
use ajah.Flagging.Levels.{rank, verdict_level}
use ajah.Crossmodel.{Peer}
use ajah.Db.Settings.{FeatureSetting, Caches, no_caches, refresh_cache}
use ajah.Gateway.Scoring.{Scorer, ScorerOutcome, call_scorer, zero_outcome}
use ajah.Gateway.Judging.{judge, Judged, ask_second}
use ajah.Gateway.Judgement.{second_rank, warns, rank-judge}

abbrev good : ScorerOutcome scaled
good = record (zero_outcome scaled) { overall_quality_score = 900; factual_consistency_score = 900 }

abbrev scorer : Scorer scaled
scorer = record {
  Body = String;
  encode = λ p. some "payload";
  post = λ body. some (200, some "outcome");
  decode = λ body. some good;
}

-- The second model answers "no".
abbrev provider : Peer scaled
provider = record {
  Body = String;
  encode_chat = λ model prompt. some "chat";
  encode_compare = λ a b prompt. some "compare";
  is_url = λ url. true;
  post = λ url key body. if str_eq body "chat" then some (200, some "no") else none;
  decode_chat = λ body. some ("no" ∷ []);
  decode_compare = λ body. none;
  runes = ascii;
}

abbrev chat : FeatureSetting scaled
chat = record {
  feature_name = "chat";
  cost_alert_threshold_usd = 5000;
  pii_masking_enabled = true;
  webhook_url = "";
  cross_model_enabled = true;
  cross_model_provider_url = "http://second";
  cross_model_api_key = "key";
  cross_model_model = "model";
  rate_limit_rpm = pos 0;
  alert_email_to = "";
  max_steps_per_session = pos 0;
  max_cost_per_session = 0;
}

abbrev caches : Caches scaled
caches = refresh_cache scaled (some (chat ∷ [])) (no_caches scaled)

abbrev text : Bytes → String
text s = "yes!"

abbrev event : Event ℕ ℕ
event = record {
  request_id = "r1";
  user_id = "u";
  session_id = "s";
  feature_name = "chat";
  agent_step = "plan";
  step_name = "plan";
  parent_step_id = "";
  tool_name = "";
  source_context = "";
  provider = "openai";
  model = ascii "gpt-4o";
  input_tokens = 1000;
  output_tokens = 2000;
  status_code = 200;
  prompt = ascii "yes?";
  response = ascii "yes!";
  scanned = none;
}

rank-judge_example :
    (j : Judged scaled) × (judge scaled scorer provider "http://scorer" text caches event none
      ≡ some j)
    × (rank j.flag.risk_level
        ≡ max
            (max
              (rank (
                compute_risk_level scaled
                  (call_scorer scaled scorer event none).hallucination_score
                  (call_scorer scaled scorer event none).factual_consistency_score))
              (rank (verdict_level (call_scorer scaled scorer event none).rag_verdict)))
            (second_rank scaled
              (ask_second scaled scorer provider "http://scorer" text caches event)))
    × (j.flag.should_warn ≡ warns scaled j.flag)
rank-judge_example = rank-judge scaled scorer provider "http://scorer" text caches event none refl
