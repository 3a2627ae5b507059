-- ===== src/Anomaly.antt =====
-- internal/anomaly/detector.go. The query of the baselines is a parameter; the lock and the time of
-- detection are left out, and a refresh is one step.
pub mod Detection
mod Examples
use ajah.Prelude.{
  ℕ, Bool, true, false, ◌&&◌, ◌||◌, String, str_eq, List, [], ◌∷◌, ◌++◌, Option, none, some, Result,
  ok, err, ltb, if◌then◌else◌,
}
use ajah.Float.{Float64}

pub data AnomalyType : Type 0 where
  latency_spike cost_spike hallucination_surge quality_drop : AnomalyType

module _ (f : Float64) where
  pub record FeatureBaseline : Type 0 where
    pub feature_name : String
    pub avg_hallucination : f.F
    pub std_hallucination : f.F
    pub avg_cost_usd : f.F
    pub std_cost_usd : f.F
    pub avg_latency_ms : f.F
    pub std_latency_ms : f.F
    pub avg_quality_score : f.F
    pub std_quality_score : f.F
    pub sample_count : ℕ

  pub record Anomaly : Type 0 where
    pub request_id : String
    pub feature_name : String
    pub kind : AnomalyType
    pub value : f.F
    pub baseline : f.F
    pub z_score : f.F

  -- The map of the baselines.
  abbrev pub Baselines : Type 0
  Baselines = String → Option FeatureBaseline

  abbrev store : FeatureBaseline → Baselines → Baselines
  store b m name = if str_eq b.feature_name name then some b else m name

  abbrev fill : List FeatureBaseline → Baselines → Baselines
  fill [] m = m
  fill (b ∷ bs) m = fill bs (store b m)

  -- An error keeps the old map; otherwise the new one holds what the query gave, and nothing else.
  unfoldable pub refresh_baselines {ℓ} :
      {E : Type ℓ} → Result E (List FeatureBaseline) → Baselines → Baselines
  refresh_baselines (err e) old = old
  refresh_baselines (ok found) old = fill found (λ name. none)

  abbrev z_score_threshold : f.F
  z_score_threshold = f.lit 25 1

  unfoldable pub z_score : f.F → f.F → f.F → f.F
  z_score value mean std =
      if f.ltb std (f.lit 1 4) then f.lit 0 0 else f.div (f.abs (f.sub value mean)) std

  -- The arguments of Detect behind the names.
  pub record Metrics : Type 0 where
    pub hallucination_risk : f.F
    pub cost_usd : f.F
    pub latency_ms : ℕ
    pub quality_score : f.F

  -- A metric's anomaly, if its score reaches the threshold.
  unfoldable pub spike : String → String → AnomalyType → f.F → f.F → f.F → List Anomaly
  spike request feature kind value mean std =
      if f.leb z_score_threshold (z_score value mean std)
      then record {
        request_id = request;
        feature_name = feature;
        kind = kind;
        value = value;
        baseline = mean;
        z_score = z_score value mean std;
      }
        ∷ []
      else []

  -- A low quality only, and only one that was scored.
  unfoldable pub drop_of : String → String → f.F → FeatureBaseline → List Anomaly
  drop_of request feature quality b =
      if f.ltb (f.lit 0 0) quality && f.ltb quality b.avg_quality_score
      then spike request feature quality_drop quality b.avg_quality_score b.std_quality_score
      else []

  unfoldable pub against : String → String → Metrics → FeatureBaseline → List Anomaly
  against request feature m b =
      spike request feature hallucination_surge m.hallucination_risk b.avg_hallucination
        b.std_hallucination
      ++ (spike request feature cost_spike m.cost_usd b.avg_cost_usd b.std_cost_usd
          ++ (spike request feature latency_spike (f.of_int m.latency_ms) b.avg_latency_ms
                b.std_latency_ms
              ++ drop_of request feature m.quality_score b))

  unfoldable pub detect : Baselines → String → String → Metrics → List Anomaly
  detect baselines request feature m = elim (baselines feature) [
    | none ↦ []
    | some b ↦ if ltb b.sample_count 10 then [] else against request feature m b
  ]
