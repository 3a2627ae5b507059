-- ===== src/Anomaly/Examples.antt =====
-- The theorem about Detect at a request that costs too much.
use ajah.Prelude.{◌≡◌, str_eq, none, some, ◌&&◌, false, leb, if◌then◌else◌, true, refl}
use ajah.Float.Scaled.{scaled, scaled-IsOrdered}
use ajah.Anomaly.{cost_spike, FeatureBaseline, Baselines, Metrics, detect}
use ajah.Anomaly.Detection.{reports, stands_out, reports-detect}

abbrev chat : FeatureBaseline scaled
chat = record {
  feature_name = "chat";
  avg_hallucination = 100;
  std_hallucination = 50;
  avg_cost_usd = 1000;
  std_cost_usd = 200;
  avg_latency_ms = 900000;
  std_latency_ms = 100000;
  avg_quality_score = 800;
  std_quality_score = 100;
  sample_count = 40;
}

abbrev baselines : Baselines scaled
baselines name = if str_eq name "chat" then some chat else none

abbrev dear : Metrics scaled
dear = record { hallucination_risk = 100; cost_usd = 5000; latency_ms = 900; quality_score = 800 }

reports-detect_example :
    reports scaled scaled-IsOrdered cost_spike (detect scaled baselines "r1" "chat" dear)
    ≡ elim (baselines "chat") [
      | none ↦ false
      | some b ↦ leb 10 b.sample_count && stands_out scaled scaled-IsOrdered cost_spike dear b
    ]
reports-detect_example =
    reports-detect scaled scaled-IsOrdered cost_spike baselines "r1" "chat" dear

-- It is reported.
dear_reported : stands_out scaled scaled-IsOrdered cost_spike dear chat ≡ true
dear_reported = refl
