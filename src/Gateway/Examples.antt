-- ===== src/Gateway/Examples.antt =====
-- The theorems about sendWebhook at a receiver that answers at the third attempt, about the limit of two
-- requests in a minute, and about the alert on a feature's costs.
use mathlib.Core.Bool.{true≢false}
use ajah.Float.Scaled.{scaled}
use ajah.Config.{pos}
use ajah.Redis.Tallies.{empty, tally_server, tally_server-IsCounting, count-empty, holds-empty}
use ajah.Db.Settings.{
  FeatureSetting, Caches, no_caches, refresh_cache, load_settings, rate_limit_rpm_for,
}
use ajah.Gateway.Limits.{limit_key}
use ajah.Proxy.{Event}
use ajah.Attribution.Keys.{feature_cost_key}
use ajah.Db.Settings.{threshold_for}
use ajah.Gateway.Alerts.{AlertResponse, alert_key}
use ajah.Gateway.Crossing.{Done, alerts_in, crosses, alerts_in_lem}
use ajah.Gateway.Windows.{Arrival, arrivals_in, passed_in, passed_in_lem}
use ajah.Prelude.{
  ◌*◌, Bool, if◌then◌else◌, Option, none, min, List, [], ◌∷◌, String, str_eq, ap, false, ◌≢◌, arith,
  ℕ, zero, suc, ◌≡◌, ◌≤◌, ◌<◌, ◌↔◌, refl, true, some, Result, ok, err,
}
use ajah.Text.{Bytes, ascii}
use ajah.Gateway.Webhooks.{send_webhook}
use ajah.Gateway.Delivery.{
  accepts, retried_from, total, send_webhook-delivered, send_webhook-within,
}

abbrev answers : ℕ → Result Bytes ℕ
answers zero = err (ascii "connection refused")
answers (suc zero) = ok 503
answers (suc (suc n)) = ok 200

abbrev payload : Bytes
payload = ascii "{}"

send_webhook-delivered_example :
    ((send_webhook (some payload) true answers).delivered ≡ true)
    ↔ ((i : ℕ) × (i < 4) × (accepts answers (answers i) ≡ true) × (retried_from answers 0 i ≡ true))
send_webhook-delivered_example = send_webhook-delivered answers payload

send_webhook-within_example :
    ((send_webhook (some payload) true answers).attempts ≤ 4)
    × (total (send_webhook (some payload) true answers).delays ≤ 3500)
send_webhook-within_example = send_webhook-within answers (some payload) true

delivered_at_third : (send_webhook (some payload) true answers).delivered ≡ true
delivered_at_third = send_webhook-delivered_example.1 (2, omega arith, refl, refl)

abbrev chat : FeatureSetting scaled
chat = record {
  feature_name = "chat";
  cost_alert_threshold_usd = 5000;
  pii_masking_enabled = true;
  webhook_url = "";
  cross_model_enabled = false;
  cross_model_provider_url = "";
  cross_model_api_key = "";
  cross_model_model = "";
  rate_limit_rpm = pos 2;
  alert_email_to = "";
  max_steps_per_session = pos 0;
  max_cost_per_session = 0;
}

abbrev caches : Caches scaled
caches = refresh_cache scaled (some (chat ∷ [])) (no_caches scaled)

abbrev arrival : String → String → ℕ → Arrival
arrival feature minute second = record { feature = feature; minute = minute; second = second }

abbrev arrivals : List Arrival
arrivals =
    arrival "chat" "202601021504" 1
    ∷ arrival "mail" "202601021504" 2
    ∷ arrival "chat" "202601021504" 3
    ∷ arrival "chat" "202601021504" 4
    ∷ []

set_feature : ◌≢◌ {A = String} "chat" ""
set_feature h = true≢false (ap (λ s. str_eq s "chat") h)

chat_limit : rate_limit_rpm_for scaled caches "chat" ≡ pos 2
unfolding rate_limit_rpm_for refresh_cache load_settings
chat_limit = refl

-- Two of the three requests pass.
passed_in_lem_example :
    passed_in scaled tally_server caches "chat" "202601021504" arrivals empty
    ≡ min (arrivals_in "chat" "202601021504" arrivals) 2
passed_in_lem_example =
    passed_in_lem scaled tally_server caches "chat" "202601021504" tally_server-IsCounting 2
      set_feature chat_limit (omega arith) arrivals empty (refl, (refl, (refl, (refl, tt))))
      (count-empty (limit_key "chat" "202601021504"))

abbrev to_float : ℕ → ℕ
to_float n = n * 1000

abbrev text : Bytes → String
text s = "gpt-4o"

abbrev event : String → Event ℕ ℕ
event feature = record {
  request_id = "r1";
  user_id = "u";
  session_id = "s";
  feature_name = feature;
  agent_step = "plan";
  step_name = "plan";
  parent_step_id = "";
  tool_name = "";
  source_context = "";
  provider = "openai";
  model = ascii "gpt-4o";
  input_tokens = 1000;
  output_tokens = 2000;
  status_code = 200;
  prompt = [];
  response = [];
  scanned = none;
}

abbrev done : String → Bool → Done ℕ ℕ
done feature written = record { day = "2026-01-02"; event = event feature; written = written }

abbrev dones : List (Done ℕ ℕ)
dones = done "chat" true ∷ done "mail" true ∷ done "chat" false ∷ done "chat" true ∷ []

abbrev marshal : AlertResponse scaled → Option Bytes
marshal a = some (ascii "{}")

abbrev no_smtp : Option ℕ
no_smtp = none

alerts_in_lem_example :
    alerts_in scaled to_float text "chat" "2026-01-02" tally_server marshal caches no_smtp dones
      empty
    ≡ (if crosses scaled to_float text "chat" "2026-01-02"
          (threshold_for scaled caches "chat")
          dones
          (tally_server-IsCounting.amount empty (feature_cost_key "chat" "2026-01-02"))
        then 1
        else 0)
alerts_in_lem_example =
    alerts_in_lem scaled to_float text "chat" "2026-01-02" tally_server marshal caches no_smtp
      tally_server-IsCounting set_feature (λ a. (ascii "{}", refl)) dones empty
      (refl, (refl, (refl, (refl, tt)))) (holds-empty (alert_key "chat" "2026-01-02"))
