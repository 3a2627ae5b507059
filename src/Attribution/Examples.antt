-- ===== src/Attribution/Examples.antt =====
-- The theorems about the attribution engine at concrete events.
use mathlib.Core.Bool.{true≢false}
use ajah.Prelude.{ℕ, ◌*◌, ◌≡◌, ◌≢◌, refl, ap, String, str_eq, List, [], ◌∷◌, none}
use ajah.Text.{Bytes, ascii}
use ajah.Float.Scaled.{scaled}
use ajah.Redis.Tallies.{empty, tally_server, tally_server-IsCounting, count-empty}
use ajah.Proxy.{Event}
use ajah.Attribution.Keys.{feature_cost_key, retry_key}
use ajah.Attribution.Spending.{process_all, spent, amount-process_all}
use ajah.Attribution.Retries.{warnings, warnings_lem}

abbrev to_float : ℕ → ℕ
to_float n = n * 1000

abbrev text : Bytes → String
text s = "gpt-4o"

abbrev event : Event ℕ ℕ
event = record {
  request_id = "r1";
  user_id = "u";
  session_id = "s";
  feature_name = "chat";
  agent_step = "plan";
  step_name = "plan";
  parent_step_id = "";
  tool_name = "";
  source_context = "";
  provider = "openai";
  model = ascii "gpt-4o";
  input_tokens = 1000;
  output_tokens = 2000;
  status_code = 200;
  prompt = [];
  response = [];
  scanned = none;
}

abbrev events : List (String × Event ℕ ℕ)
events = ("2026-01-02", event) ∷ ("2026-01-03", event) ∷ []

amount-process_all_example :
    tally_server-IsCounting.amount
      (process_all scaled to_float text tally_server events empty)
      (feature_cost_key "chat" "2026-01-02")
    ≡ spent scaled to_float text "chat" "2026-01-02" events
        (tally_server-IsCounting.amount empty (feature_cost_key "chat" "2026-01-02"))
amount-process_all_example =
    amount-process_all scaled to_float text tally_server tally_server-IsCounting "chat" "2026-01-02"
      events empty (refl, (refl, tt))

set_user : ◌≢◌ {A = String} "u" ""
set_user h = true≢false (ap (λ s. str_eq s "u") h)

set_feature : ◌≢◌ {A = String} "chat" ""
set_feature h = true≢false (ap (λ s. str_eq s "chat") h)

set_step : ◌≢◌ {A = String} "plan" ""
set_step h = true≢false (ap (λ s. str_eq s "plan") h)

warnings_lem_example : warnings scaled tally_server event 8 empty ≡ 3
warnings_lem_example =
    warnings_lem scaled tally_server event tally_server-IsCounting set_user set_feature set_step 8
      empty (count-empty (retry_key "u" "chat" "plan"))

-- Two different steps whose names hold colons share one counter.
retry_key-shared : retry_key "a" "b:c" "d" ≡ retry_key "a:b" "c" "d"
unfolding retry_key
retry_key-shared = refl
