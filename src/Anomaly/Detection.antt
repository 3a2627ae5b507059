-- ===== src/Anomaly/Detection.antt =====
-- What is reported as an anomaly, of which feature, and against which baseline.
use ajah.Prelude.{
  ℕ, ◌≡◌, refl, ◌∙◌, inl, inr, Bool, true, false, ◌&&◌, ◌||◌, not, String, List, [], ◌∷◌, ◌++◌,
  none, some, arith, any, ◌==◌, leb, Option-cases,
}
use ajah.Float.{Float64, IsOrdered}
use ajah.Anomaly.{
  AnomalyType, latency_spike, cost_spike, hallucination_surge, quality_drop, FeatureBaseline,
  Anomaly, Baselines, z_score, Metrics, spike, drop_of, against, detect,
}

module _ (f : Float64) (law : IsOrdered f) where
  -- The metric of a kind, its mean and its deviation.
  abbrev pub metric_of : AnomalyType → Metrics f → f.F
  metric_of latency_spike m = f.of_int m.latency_ms
  metric_of cost_spike m = m.cost_usd
  metric_of hallucination_surge m = m.hallucination_risk
  metric_of quality_drop m = m.quality_score

  abbrev pub mean_of : AnomalyType → FeatureBaseline f → f.F
  mean_of latency_spike b = b.avg_latency_ms
  mean_of cost_spike b = b.avg_cost_usd
  mean_of hallucination_surge b = b.avg_hallucination
  mean_of quality_drop b = b.avg_quality_score

  abbrev pub deviation_of : AnomalyType → FeatureBaseline f → f.F
  deviation_of latency_spike b = b.std_latency_ms
  deviation_of cost_spike b = b.std_cost_usd
  deviation_of hallucination_surge b = b.std_hallucination
  deviation_of quality_drop b = b.std_quality_score

  -- A deviation below 0.0001 gives the score 0, which is under the threshold.
  zero_under : f.leb (f.lit 25 1) (f.lit 0 0) ≡ false
  zero_under = ground (
    arith,
    law.lit_pad 0 0,
    law.lit_lt 0 25 1 (omega arith) (omega arith) (omega arith),
    law.not_le_of_lt (f.lit 0 1) (f.lit 25 1),
  )

  abbrev rank : AnomalyType → ℕ
  rank latency_spike = 0
  rank cost_spike = 1
  rank hallucination_surge = 2
  rank quality_drop = 3

  -- Whether an anomaly of the kind is among these.
  abbrev pub reports : AnomalyType → List (Anomaly f) → Bool
  reports k = any (λ a. rank a.kind == rank k)

  -- A low quality is meant, if one was scored; of the other metrics both sides are.
  abbrev side : AnomalyType → Metrics f → FeatureBaseline f → Bool
  side quality_drop m b =
      f.ltb (f.lit 0 0) m.quality_score && f.ltb m.quality_score b.avg_quality_score
  side latency_spike m b = true
  side cost_spike m b = true
  side hallucination_surge m b = true

  -- Whether the metric of a kind is 2.5 deviations or more from its mean; a deviation below 0.0001 counts
  -- as none.
  abbrev pub stands_out : AnomalyType → Metrics f → FeatureBaseline f → Bool
  stands_out k m b =
      not (f.ltb (deviation_of k b) (f.lit 1 4))
      && f.leb (f.lit 25 1) (f.div (f.abs (f.sub (metric_of k m) (mean_of k b))) (deviation_of k b))
      && side k m b

  any-append :
      (p : Anomaly f → Bool) (xs ys : List (Anomaly f)) → any p (xs ++ ys) ≡ (any p xs || any p ys)
  any-append p [] ys = refl
  any-append p (x ∷ xs) ys = ground (arith, any-append p xs ys)

  reports-spike :
      (k kind : AnomalyType) (request feature : String) (value mean std : f.F)
      → reports k (spike f request feature kind value mean std) ≡ (
          rank kind == rank k
          && (not (f.ltb std (f.lit 1 4))
              && f.leb (f.lit 25 1) (f.div (f.abs (f.sub value mean)) std)))
  unfolding spike z_score
  reports-spike k kind request feature value mean std = ground (arith, zero_under)

  reports-drop_of :
      (k : AnomalyType) (request feature : String) (quality : f.F) (b : FeatureBaseline f)
      → reports k (drop_of f request feature quality b) ≡ (
          f.ltb (f.lit 0 0) quality
          && f.ltb quality b.avg_quality_score
          && reports k (
              spike f request feature quality_drop quality b.avg_quality_score b.std_quality_score))
  unfolding drop_of
  reports-drop_of k request feature quality b = ground arith

  reports-against :
      (k : AnomalyType) (request feature : String) (m : Metrics f) (b : FeatureBaseline f)
      → reports k (against f request feature m b) ≡ stands_out k m b
  unfolding against
  reports-against k request feature m b =
      let risk : List (Anomaly f) =
        spike f request feature hallucination_surge m.hallucination_risk b.avg_hallucination
          b.std_hallucination in
      let cost : List (Anomaly f) =
        spike f request feature cost_spike m.cost_usd b.avg_cost_usd b.std_cost_usd in
      let latency : List (Anomaly f) =
        spike f request feature latency_spike (f.of_int m.latency_ms) b.avg_latency_ms
          b.std_latency_ms in
      let quality : List (Anomaly f) = drop_of f request feature m.quality_score b in
      let p : Anomaly f → Bool = λ a. rank a.kind == rank k in
      any-append p risk (cost ++ (latency ++ quality))
      ∙ ground (
        arith,
        any-append p cost (latency ++ quality),
        any-append p latency quality,
        reports-spike k hallucination_surge request feature m.hallucination_risk b.avg_hallucination
            b.std_hallucination,
        reports-spike k cost_spike request feature m.cost_usd b.avg_cost_usd b.std_cost_usd,
        reports-spike k latency_spike request feature (f.of_int m.latency_ms) b.avg_latency_ms
            b.std_latency_ms,
        reports-drop_of k request feature m.quality_score b,
        reports-spike k quality_drop request feature m.quality_score b.avg_quality_score
            b.std_quality_score,
      )

  -- For each of the four kinds: a request is reported with an anomaly of the kind exactly if there is a
  -- baseline of its feature from ten samples or more whose deviation for the kind's metric is not below
  -- 0.0001 and from whose mean the metric is 2.5 deviations or more away; a quality score must besides
  -- be above 0 and below the mean.
  pub reports-detect :
      (k : AnomalyType) (baselines : Baselines f) (request feature : String) (m : Metrics f)
      → reports k (detect f baselines request feature m) ≡ elim (baselines feature) [
        | none ↦ false
        | some b ↦ leb 10 b.sample_count && stands_out k m b
      ]
  unfolding detect
  reports-detect k baselines request feature m = elim (Option-cases (baselines feature)) [
    | inl absent ↦ ground arith
    | inr (b, found) ↦ ground (arith, reports-against k request feature m b)
  ]
