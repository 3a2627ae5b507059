-- ===== src/Gateway/Webhooks.antt =====
-- sendWebhook of cmd/gateway/main.go. The result of an attempt is given by its number; what is recorded
-- is the pauses, in milliseconds, and the attempts made.
use ajah.Prelude.{
  ℕ, zero, suc, ◌-◌, ◌*◌, ◌^◌, Bool, true, false, ◌&&◌, List, [], ◌∷◌, ◌++◌, Option, none, some,
  Result, ok, err, ltb, leb, if◌then◌else◌,
}
use ajah.Text.{Bytes}

abbrev pub max_attempts : ℕ
max_attempts = 4

abbrev base_delay : ℕ
base_delay = 500

-- Doubled at each attempt after the first, and 30 seconds at most.
abbrev pub delay : ℕ → ℕ
delay attempt = let d : ℕ = base_delay * 2 ^ (attempt - 1) in if ltb 30000 d then 30000 else d

-- The pauses, the requests that were sent, and whether one was accepted.
pub record Sent : Type 0 where
  pub delays : List ℕ
  pub attempts : ℕ
  pub delivered : Bool

abbrev stop : List ℕ → Bool → Sent
stop slept delivered = record { delays = slept; attempts = 1; delivered = delivered }

abbrev again : List ℕ → Sent → Sent
again slept rest = record {
  delays = slept ++ rest.delays;
  attempts = suc rest.attempts;
  delivered = rest.delivered;
}

abbrev pub is_2xx : ℕ → Bool
is_2xx status = leb 200 status && ltb status 300

abbrev pub is_4xx : ℕ → Bool
is_4xx status = leb 400 status && ltb status 500

module _ {E : Type 0} where
  -- What follows the result of an attempt.
  unfoldable pub after_answer : List ℕ → Result E ℕ → Sent → Sent
  after_answer slept (err e) rest = again slept rest
  after_answer slept (ok status) rest =
      if is_2xx status
      then stop slept true
      else if is_4xx status
      then stop slept false
      else again slept rest

  -- The loop over the attempts that are left; `builds` is whether the request can be built.
  unfoldable pub attempts_from : Bool → (ℕ → Result E ℕ) → ℕ → ℕ → Sent
  attempts_from builds answers zero attempt = record {
    delays = [];
    attempts = 0;
    delivered = false;
  }
  attempts_from builds answers (suc left) attempt =
      let slept : List ℕ = if ltb 0 attempt then delay attempt ∷ [] else [] in
      let rest = attempts_from builds answers left (suc attempt) in
      if builds
      then after_answer slept (answers attempt) rest
      else record { delays = slept; attempts = 0; delivered = false }

  -- `body` is none if the payload cannot be marshalled.
  unfoldable pub send_webhook : Option Bytes → Bool → (ℕ → Result E ℕ) → Sent
  send_webhook none builds answers = record { delays = []; attempts = 0; delivered = false }
  send_webhook (some body) builds answers = attempts_from builds answers max_attempts 0
