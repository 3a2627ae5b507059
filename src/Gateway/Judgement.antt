-- ===== src/Gateway/Judgement.antt =====
-- The level of a judged response.
use ajah.Prelude.{
  ℕ, max, ◌≡◌, ap, ◌∙◌, Bool, not, String, List, Option, none, some, if◌then◌else◌, arith,
}
use ajah.Text.{Bytes}
use ajah.Float.{Float64}
use ajah.Proxy.{Event}
use ajah.Flagging.{RiskFlag, is_low, evaluate, compute_risk_level}
use ajah.Flagging.Levels.{rank, verdict_level, rank-evaluate, warns_iff}
use ajah.Crossmodel.{Peer, VerificationResult}
use ajah.Db.Settings.{Caches}
use ajah.Gateway.Scoring.{Scorer, ScorerOutcome, call_scorer}
use ajah.Gateway.Judging.{agrees, lift, judge, judged, Judged, ask_second, scores_of}

module _ (f : Float64) where
  -- The least level that the second model asks for.
  abbrev pub second_rank : Option (VerificationResult f) → ℕ
  second_rank none = 0
  second_rank (some r) = if agrees r.verdict then 0 else 1

  abbrev pub warns : RiskFlag f → Bool
  warns flag = not (is_low flag.risk_level)

  lift-rank :
      (flag : RiskFlag f) (second : Option (VerificationResult f))
      → flag.should_warn ≡ warns flag
      → (rank (judged f flag second).flag.risk_level
          ≡ max (rank flag.risk_level) (second_rank second))
        × ((judged f flag second).flag.should_warn ≡ warns (judged f flag second).flag)
  unfolding lift
  lift-rank flag none h = (omega arith, h)
  lift-rank flag (some r) h = (ground arith, ground (arith, h))

  module _ (s : Scorer f) (peer : Peer f) (scorer_url : String) (text : Bytes → String)
      (caches : Caches f) {Int Scan : Type 0} (event : Event Int Scan) where
    -- A response with status 200 is judged, whatever the scorer and the second model do. Its level is
    -- the highest of three: the level of the scorer's two scores, the level that its verdict asks for,
    -- and "medium" if a second model is asked and answers, and does not agree. It warns exactly if its
    -- level is not "low".
    pub rank-judge :
        (turns : Option (List Bytes))
        → event.status_code ≡ 200
        → (j : Judged f) × (judge f s peer scorer_url text caches event turns ≡ some j)
          × (rank j.flag.risk_level
              ≡ max
                  (max
                    (rank (
                      compute_risk_level f
                        (call_scorer f s event turns).hallucination_score
                        (call_scorer f s event turns).factual_consistency_score))
                    (rank (verdict_level (call_scorer f s event turns).rag_verdict)))
                  (second_rank (ask_second f s peer scorer_url text caches event)))
          × (j.flag.should_warn ≡ warns j.flag)
    unfolding judge
    rank-judge turns fine =
        let o : ScorerOutcome f = call_scorer f s event turns in
        let flag : RiskFlag f = evaluate f event.request_id event.session_id (scores_of f o) in
        let second : Option (VerificationResult f) =
          ask_second f s peer scorer_url text caches event in
        let (level, warned) =
          lift-rank flag second (warns_iff f event.request_id event.session_id (scores_of f o)) in
        (
          judged f flag second,
          ground (arith, fine),
          level
              ∙ ap (λ n. max n (second_rank second))
                  (rank-evaluate f event.request_id event.session_id (scores_of f o)),
          warned,
        )
