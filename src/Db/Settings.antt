-- ===== src/Db/Settings.antt =====
-- The settings of features and users: the rows of their tables, and the maps in memory that the gateway
-- reads. A refresh is one step, and is given what the query finds.
use ajah.Prelude.{
  Bool, String, str_eq, List, [], ◌∷◌, ◌++◌, Option, none, some, any, map, if◌then◌else◌,
}
use ajah.Float.{Float64}
use ajah.Config.{ℤ, pos}
use ajah.Db.Accounts.{filter}

module _ (f : Float64) where
  pub record FeatureSetting : Type 0 where
    pub feature_name : String
    pub cost_alert_threshold_usd : f.F
    pub pii_masking_enabled : Bool
    pub webhook_url : String
    pub cross_model_enabled : Bool
    pub cross_model_provider_url : String
    pub cross_model_api_key : String
    pub cross_model_model : String
    pub rate_limit_rpm : ℤ
    pub alert_email_to : String
    pub max_steps_per_session : ℤ
    pub max_cost_per_session : f.F

  pub record UserSetting : Type 0 where
    pub user_id : String
    pub budget_usd_per_day : f.F
    pub alert_email_to : String
    pub webhook_url : String

  -- The four maps of Store.
  pub record Caches : Type 0 where
    pub thresholds : String → Option f.F
    pub webhooks : String → Option String
    pub feature_settings : String → Option FeatureSetting
    pub user_settings : String → Option UserSetting

  -- The maps of New.
  abbrev pub no_caches : Caches
  no_caches = record {
    thresholds = λ name. none;
    webhooks = λ name. none;
    feature_settings = λ name. none;
    user_settings = λ id. none;
  }

  abbrev with_key : {A : Type 0} → String → A → (String → Option A) → String → Option A
  with_key key a m j = if str_eq key j then some a else m j

  abbrev pub stored : FeatureSetting → Caches → Caches
  stored s c = record c {
    thresholds = with_key s.feature_name s.cost_alert_threshold_usd c.thresholds;
    webhooks =
        (if str_eq s.webhook_url ""
          then c.webhooks
          else with_key s.feature_name s.webhook_url c.webhooks);
    feature_settings = with_key s.feature_name s c.feature_settings;
  }

  -- The loop of RefreshCache into the three maps.
  unfoldable pub load_settings : List FeatureSetting → Caches → Caches
  load_settings [] c = c
  load_settings (s ∷ ss) c = load_settings ss (stored s c)

  -- RefreshCache: an error of the query keeps the maps.
  unfoldable pub refresh_cache : Option (List FeatureSetting) → Caches → Caches
  refresh_cache none c = c
  refresh_cache (some settings) c = load_settings settings (record c {
    thresholds = λ name. none;
    webhooks = λ name. none;
    feature_settings = λ name. none;
  })

  unfoldable pub threshold_for : Caches → String → f.F
  threshold_for c feature = elim (c.thresholds feature) [ some t ↦ t | none ↦ f.lit 1 0 ]

  unfoldable pub webhook_url_for : Caches → String → String
  webhook_url_for c feature = elim (c.webhooks feature) [ some url ↦ url | none ↦ "" ]

  unfoldable pub feature_setting_for : Caches → String → Option FeatureSetting
  feature_setting_for c feature = c.feature_settings feature

  unfoldable pub rate_limit_rpm_for : Caches → String → ℤ
  rate_limit_rpm_for c feature = elim (c.feature_settings feature) [
    | some s ↦ s.rate_limit_rpm
    | none ↦ pos 0
  ]

  unfoldable pub alert_email_for : Caches → String → String
  alert_email_for c feature = elim (c.feature_settings feature) [
    | some s ↦ s.alert_email_to
    | none ↦ ""
  ]

  abbrev pub names : String → FeatureSetting → Bool
  names feature s = str_eq s.feature_name feature

  abbrev pub replace : FeatureSetting → FeatureSetting → FeatureSetting
  replace s old = if names s.feature_name old then s else old

  -- UpsertSetting: the row of the name is replaced, or a new one added.
  unfoldable pub upsert_setting :
      Bool → FeatureSetting → List FeatureSetting → Option (List FeatureSetting)
  upsert_setting up s table =
      if up
      then some
          (if any (names s.feature_name) table then map (replace s) table else table ++ s ∷ [])
      else none

  -- GetUserSettings: the rows with a budget.
  unfoldable pub get_user_settings : Bool → List UserSetting → Option (List UserSetting)
  get_user_settings up table =
      if up then some (filter (λ u. f.ltb (f.lit 0 0) u.budget_usd_per_day) table) else none

  unfoldable pub load_user_settings :
      List UserSetting → (String → Option UserSetting) → String → Option UserSetting
  load_user_settings [] m = m
  load_user_settings (u ∷ us) m = load_user_settings us (with_key u.user_id u m)

  -- RefreshUserCache
  unfoldable pub refresh_user_cache : Option (List UserSetting) → Caches → Caches
  refresh_user_cache none c = c
  refresh_user_cache (some settings) c = record c {
    user_settings = load_user_settings settings (λ id. none);
  }

  unfoldable pub user_setting_for : Caches → String → Option UserSetting
  user_setting_for c id = c.user_settings id
