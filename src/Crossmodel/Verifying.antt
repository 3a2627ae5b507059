-- ===== src/Crossmodel/Verifying.antt =====
-- The score and the verdict of a verification, and how they are obtained over HTTP.

use ajah.Prelude.{
  Option, ok, err, Result-cases, ℕ, ◌≤◌, ◌≡◌, refl, ◌⊎◌, inl, inr, true, false, ◌&&◌, ◌||◌, List,
  [], none, some, Option-cases, String, ltb, ◌==◌, if◌then◌else◌, length, arith, Bool-cases,
}
use ajah.Float.{Float64, IsOrdered}
use ajah.Crossmodel.{
  Runes, Verdict, agree, partial, disagree, cap_runes, classify, ratio_of, levenshtein_ratio,
  CallError, Peer, VerificationResult, call_secondary, ask_scorer, compare_responses, verify,
  report,
}
use ajah.Crossmodel.Edits.{levenshtein_dist-Edits, levenshtein_dist-le-max}

abbrev pub grade : Verdict → ℕ
grade disagree = 0
grade partial = 1
grade agree = 2

module _ (f : Float64) (o : IsOrdered f) where
  open f use {F, lit}

  one_unit :
      (f.leb (lit 0 0) (lit 10 1) ≡ true)
      × (f.leb (lit 10 1) (lit 10 1) ≡ true)
      × (f.leb (lit 0 0) (lit 0 0) ≡ true)
  one_unit = ground (arith, o.lit_pad 0 0, o.lit_le 0 10 1, o.lit_le 10 10 1, o.lit_le 0 0 0)

  ratio_of-InUnit :
      (a b : Runes)
      → (r : F) × (ratio_of f a b ≡ some r)
        × (f.leb (lit 0 0) r ≡ true)
        × (f.leb r (lit 10 1) ≡ true)
  unfolding ratio_of
  ratio_of-InUnit a b = elim (Bool-cases (length a == 0 && length b == 0)) [
    | inl e ↦ rw e (lit 10 1, refl, ground (arith, one_unit), ground (arith, one_unit))
    | inr e ↦ elim (Bool-cases (length a == 0 || length b == 0)) [
      | inl e' ↦ rw (e, e') (lit 0 0, refl, ground (arith, one_unit), ground (arith, one_unit))
      | inr e' ↦ computed e e'
    ]
  ]
    where
      longer : ℕ
      longer = if ltb (length a) (length b) then length b else length a

      computed :
          (length a == 0 && length b == 0) ≡ false
          → (length a == 0 || length b == 0) ≡ false
          → (r : F) × (ratio_of f a b ≡ some r)
            × (f.leb (lit 0 0) r ≡ true)
            × (f.leb r (lit 10 1) ≡ true)
      computed e e' =
          let (d, run, _) = levenshtein_dist-Edits a b in
          let bound = levenshtein_dist-le-max a b d run in
          let (q0, q1) = o.div_unit d longer (ground arith) (ground arith) in
          let q = f.div (f.of_int d) (f.of_int longer) in
          let (r0, r1) = o.sub_unit q q0 q1 in (f.sub (lit 10 1) q, rw (e, e', run) refl, r0, r1)

  -- The ratio is a number from 0 to 1, for any two texts.
  pub levenshtein_ratio-InUnit :
      (a b : Runes)
      → (r : F) × (levenshtein_ratio f a b ≡ some r)
        × (f.leb (lit 0 0) r ≡ true)
        × (f.leb r (lit 10 1) ≡ true)
  unfolding levenshtein_ratio
  levenshtein_ratio-InUnit a b = ratio_of-InUnit (cap_runes a) (cap_runes b)

  -- A higher score never gives a worse verdict.
  pub classify_mono : (s t : F) → f.leb s t ≡ true → grade (classify f s).0 ≤ grade (classify f t).0
  unfolding classify
  classify_mono s t h = ground (
    arith,
    o.le_trans (lit 80 2) s t,
    o.le_trans (lit 50 2) s t,
    o.lit_le 50 80 2,
    o.le_trans (lit 50 2) (lit 80 2) s,
  )

module _ (f : Float64) (o : IsOrdered f) (peer : Peer f) (scorer_url : String) where
  compare_responses_total :
      (prompt a b : String)
      → (answer : f.F × List String) × (compare_responses f peer scorer_url prompt a b
          ≡ some answer)
  unfolding compare_responses
  compare_responses_total prompt a b =
      let (ratio, e, _, _) = levenshtein_ratio-InUnit f o (peer.runes a) (peer.runes b) in
      elim (Option-cases (ask_scorer f peer scorer_url prompt a b)) [
        | inl q ↦ ((ratio, []), rw (q, compare_responses, e))
        | inr (answer, q) ↦ (answer, rw (q, compare_responses))
      ]

  -- A verification fails exactly with the error of the call to the secondary provider, whatever the
  -- scorer does; otherwise it returns the provider's answer, with the verdict and the risk that go
  -- with its score.
  pub verify_cases :
      (prompt response primary_model url key model : String)
      → ((e : CallError) × (call_secondary f peer scorer_url prompt url key model ≡ err e)
          × (verify f peer scorer_url prompt response primary_model url key model ≡ some (err e)))
        ⊎ ((r : VerificationResult f) × (call_secondary f peer scorer_url prompt url key model
              ≡ ok r.secondary_response)
            × (verify f peer scorer_url prompt response primary_model url key model ≡ some (ok r))
            × ((r.verdict, r.risk_level) ≡ classify f r.agreement_score))
  unfolding verify
  verify_cases prompt response primary_model url key model =
      elim (Result-cases (call_secondary f peer scorer_url prompt url key model)) [
        | inl (e, p) ↦ inl (e, p, rw (p, verify) refl)
        | inr (secondary, p) ↦
            let (answer, q) = compare_responses_total prompt response secondary in
            inr (
              report f peer scorer_url primary_model model response secondary answer,
              p,
              rw (p, verify, q) refl,
              refl,
            )
      ]

  -- Where the scorer gives no answer, the score is the ratio of the two texts and no point of
  -- disagreement is named.
  pub verify-fallback :
      (prompt response primary_model url key model secondary : String)
      → call_secondary f peer scorer_url prompt url key model ≡ ok secondary
      → ask_scorer f peer scorer_url prompt response secondary ≡ none
      → (r : VerificationResult f) × (verify f peer scorer_url prompt response primary_model url key
            model
          ≡ some (ok r))
        × (levenshtein_ratio f (peer.runes response) (peer.runes secondary)
            ≡ some r.agreement_score)
        × (r.disagreements ≡ [])
  unfolding verify compare_responses
  verify-fallback prompt response primary_model url key model secondary p q =
      let (ratio, e, _, _) =
        levenshtein_ratio-InUnit f o (peer.runes response) (peer.runes secondary) in
      (
        report f peer scorer_url primary_model model response secondary (ratio, []),
        rw (p, verify, q, compare_responses, e) refl,
        e,
        refl,
      )

module _ (f : Float64) (g : ℕ → ℕ) where
  -- The peers with each reply's status changed.
  abbrev recoded : {Body : Type 0} → Option (ℕ × Option Body) → Option (ℕ × Option Body)
  recoded none = none
  recoded (some (status, raw)) = some (g status, raw)

  abbrev pub with_statuses : Peer f → Peer f
  with_statuses peer = record peer { post = λ url key body. recoded (peer.post url key body) }

  ask_scorer-with_statuses :
      (peer : Peer f) (scorer_url prompt a b : String)
      → ask_scorer f (with_statuses peer) scorer_url prompt a b
        ≡ ask_scorer f peer scorer_url prompt a b
  unfolding ask_scorer
  ask_scorer-with_statuses peer url prompt a b = ground arith

  -- The status of a scorer's reply is not read: where each status of the peers' replies is replaced by
  -- a function of it, the comparison gives the same score and the same points of disagreement, or falls
  -- back to the similarity of the two texts in the same cases.
  pub compare_responses-any_status :
      (peer : Peer f) (scorer_url prompt a b : String)
      → compare_responses f (with_statuses peer) scorer_url prompt a b
        ≡ compare_responses f peer scorer_url prompt a b
  unfolding compare_responses
  compare_responses-any_status peer url prompt a b =
      ground (arith, ask_scorer-with_statuses peer url prompt a b)
