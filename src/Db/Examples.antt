-- ===== src/Db/Examples.antt =====
-- The theorem about the settings at a feature whose row is replaced.
use ajah.Prelude.{ℕ, ◌≡◌, refl, true, false, String, str_eq, List, [], ◌∷◌, some, if◌then◌else◌}
use ajah.Float.Scaled.{scaled}
use ajah.Config.{pos}
use ajah.Db.Accounts.{first}
use ajah.Db.Settings.{FeatureSetting, no_caches, names, refresh_cache, upsert_setting}
use ajah.Db.Refreshing.{IsTable, Reads, upsert_setting-Reads}

abbrev setting : String → ℕ → FeatureSetting scaled
setting name limit = record {
  feature_name = name;
  cost_alert_threshold_usd = 5000;
  pii_masking_enabled = true;
  webhook_url = "";
  cross_model_enabled = false;
  cross_model_provider_url = "";
  cross_model_api_key = "";
  cross_model_model = "";
  rate_limit_rpm = pos limit;
  alert_email_to = "";
  max_steps_per_session = pos 0;
  max_cost_per_session = 0;
}

abbrev table : List (FeatureSetting scaled)
table = setting "chat" 2 ∷ setting "mail" 3 ∷ []

abbrev new_table : List (FeatureSetting scaled)
new_table = setting "chat" 9 ∷ setting "mail" 3 ∷ []

written : upsert_setting scaled true (setting "chat" 9) table ≡ some new_table
unfolding upsert_setting
written = refl

upsert_setting-Reads_example :
    IsTable scaled new_table
    × Reads scaled (refresh_cache scaled (some new_table) (no_caches scaled)) "chat" (
        if str_eq "chat" "chat" then some (setting "chat" 9) else first (names scaled "chat") table)
upsert_setting-Reads_example =
    upsert_setting-Reads scaled (setting "chat" 9) table new_table (no_caches scaled) "chat"
      (refl, (refl, tt)) written
