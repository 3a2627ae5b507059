-- ===== src/Gateway/Delivery.antt =====
-- When a webhook is delivered, and how long it is tried.
use ajah.Prelude.{
  ℕ, zero, suc, ◌+◌, ◌≤◌, ◌<◌, ◌≡◌, ◌↔◌, refl, sym, ap, ◌∙◌, Bool, true, false, ◌&&◌, ◌||◌, not,
  List, [], ◌∷◌, ◌++◌, Option, none, some, Result, ok, err, ltb, if◌then◌else◌, arith, Bool-cases,
  inl, inr,
}
use ajah.Text.{Bytes}
use ajah.Gateway.Webhooks.{delay, Sent, is_2xx, is_4xx, after_answer, attempts_from, send_webhook}

abbrev pub total : List ℕ → ℕ
total [] = 0
total (d ∷ ds) = d + total ds

total-append : (xs ys : List ℕ) → total (xs ++ ys) ≡ total xs + total ys
total-append [] ys = omega arith
total-append (x ∷ xs) ys = omega (arith, total-append xs ys)

module _ {E : Type 0} (answers : ℕ → Result E ℕ) where
  abbrev pub accepts : Result E ℕ → Bool
  accepts (err e) = false
  accepts (ok status) = is_2xx status

  -- A network error, or a status that is neither 2xx nor 4xx.
  abbrev pub is_retried : Result E ℕ → Bool
  is_retried (err e) = true
  is_retried (ok status) = not (is_2xx status) && not (is_4xx status)

  abbrev pub retried_from : ℕ → ℕ → Bool
  retried_from attempt zero = true
  retried_from attempt (suc n) = is_retried (answers attempt) && retried_from (suc attempt) n

  after_answer-delivered :
      (slept : List ℕ) (a : Result E ℕ) (rest : Sent)
      → (after_answer slept a rest).delivered ≡ (accepts a || is_retried a && rest.delivered)
  unfolding after_answer
  after_answer-delivered slept (err e) rest = refl
  after_answer-delivered slept (ok status) rest = ground arith

  after_answer-within :
      (slept : List ℕ) (a : Result E ℕ) (rest : Sent)
      → ((after_answer slept a rest).attempts ≤ suc rest.attempts)
        × (total (after_answer slept a rest).delays ≤ total slept + total rest.delays)
  unfolding after_answer
  after_answer-within slept (err e) rest = omega (arith, total-append slept rest.delays)
  after_answer-within slept (ok status) rest = ground (arith, total-append slept rest.delays)

  accepts-shift :
      (attempt i : ℕ) → accepts (answers (attempt + suc i)) ≡ accepts (answers (suc attempt + i))
  accepts-shift attempt i =
      let same : attempt + suc i ≡ suc attempt + i = omega arith in
      ap (λ n. accepts (answers n)) same

  accepts-here : (attempt : ℕ) → accepts (answers (attempt + 0)) ≡ accepts (answers attempt)
  accepts-here attempt =
      let same : attempt + 0 ≡ attempt = omega arith in ap (λ n. accepts (answers n)) same

  accepts-first : (i : ℕ) → accepts (answers (0 + i)) ≡ accepts (answers i)
  accepts-first i = let same : 0 + i ≡ i = omega arith in ap (λ n. accepts (answers n)) same

  delivered-step :
      (left attempt : ℕ)
      → (attempts_from true answers (suc left) attempt).delivered ≡ (
          accepts (answers attempt)
          || is_retried (answers attempt)
            && (attempts_from true answers left (suc attempt)).delivered)
  unfolding attempts_from
  delivered-step left attempt =
      after_answer-delivered (if ltb 0 attempt then delay attempt ∷ [] else []) (answers attempt)
        (attempts_from true answers left (suc attempt))

  accepted_of_delivered :
      (left attempt : ℕ)
      → (attempts_from true answers left attempt).delivered ≡ true
      → (i : ℕ) × (i < left)
        × (accepts (answers (attempt + i)) ≡ true)
        × (retried_from attempt i ≡ true)
  unfolding attempts_from
  accepted_of_delivered zero attempt h = absurd (ground arith)
  accepted_of_delivered (suc left) attempt h = elim (Bool-cases (accepts (answers attempt))) [
    | inl here ↦ (0, omega arith, accepts-here attempt ∙ here, refl)
    | inr not_here ↦
        let later : (attempts_from true answers left (suc attempt)).delivered ≡ true =
          ground (arith, delivered-step left attempt) in
        let retried : is_retried (answers attempt) ≡ true =
          ground (arith, delivered-step left attempt) in
        let (i, below, accepted, before) = accepted_of_delivered left (suc attempt) later in
        (
          suc i,
          omega (arith, below),
          accepts-shift attempt i ∙ accepted,
          ground (arith, retried, before),
        )
  ]

  delivered_of_accepted :
      (left attempt i : ℕ)
      → i < left
      → accepts (answers (attempt + i)) ≡ true
      → retried_from attempt i ≡ true
      → (attempts_from true answers left attempt).delivered ≡ true
  delivered_of_accepted zero attempt i below accepted before = absurd (omega arith)
  delivered_of_accepted (suc left) attempt zero below accepted before =
      ground (arith, delivered-step left attempt, accepts-here attempt)
  delivered_of_accepted (suc left) attempt (suc i) below accepted before =
      let retried : is_retried (answers attempt) ≡ true = ground arith in
      let tail : retried_from (suc attempt) i ≡ true = ground arith in
      let later : (attempts_from true answers left (suc attempt)).delivered ≡ true =
        delivered_of_accepted left (suc attempt) i (omega arith)
          (sym (accepts-shift attempt i) ∙ accepted) tail in
      ground (arith, delivered-step left attempt, later, retried)

  -- A webhook that is marshalled and can be built is delivered exactly if one of the first four results
  -- is a 2xx status, and all results before it are network errors or statuses that are neither 2xx nor
  -- 4xx.
  pub send_webhook-delivered :
      (body : Bytes)
      → ((send_webhook (some body) true answers).delivered ≡ true)
        ↔ ((i : ℕ) × (i < 4) × (accepts (answers i) ≡ true) × (retried_from 0 i ≡ true))
  unfolding send_webhook
  send_webhook-delivered body = (
    λ delivered.
        let (i, below, accepted, before) = accepted_of_delivered 4 0 delivered in
        (i, below, sym (accepts-first i) ∙ accepted, before),
    λ found. delivered_of_accepted 4 0 found.0 found.1 (accepts-first found.0 ∙ found.2) found.3,
  )

  -- The longest pauses from an attempt on.
  budget : ℕ → ℕ → ℕ
  budget zero attempt = 0
  budget (suc left) attempt =
      total (if ltb 0 attempt then delay attempt ∷ [] else []) + budget left (suc attempt)

  attempts_from-within :
      (builds : Bool) (left attempt : ℕ)
      → ((attempts_from builds answers left attempt).attempts ≤ left)
        × (total (attempts_from builds answers left attempt).delays ≤ budget left attempt)
  unfolding attempts_from budget
  attempts_from-within builds zero attempt = omega arith
  attempts_from-within false (suc left) attempt = omega arith
  attempts_from-within true (suc left) attempt =
      let slept : List ℕ = if ltb 0 attempt then delay attempt ∷ [] else [] in
      let rest : Sent = attempts_from true answers left (suc attempt) in
      let (fewer, sooner) = attempts_from-within true left (suc attempt) in
      let (more, later) = after_answer-within slept (answers attempt) rest in
      (omega (arith, fewer, more), omega (arith, sooner, later))

  -- Whatever the results are, at most four requests are sent, and the pauses add up to at most 3.5
  -- seconds.
  pub send_webhook-within :
      (body : Option Bytes) (builds : Bool)
      → ((send_webhook body builds answers).attempts ≤ 4)
        × (total (send_webhook body builds answers).delays ≤ 3500)
  unfolding send_webhook budget
  send_webhook-within none builds = omega arith
  send_webhook-within (some body) builds = attempts_from-within builds 4 0
