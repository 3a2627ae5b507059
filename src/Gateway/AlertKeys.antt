-- ===== src/Gateway/AlertKeys.antt =====
-- The keys of the alerts differ from the others that the processing of an event writes.
use Prim.Native.String.{◌++◌ as str_append, len}
use ajah.Prelude.{◌≡◌, refl, false, String, str_eq, ◌&&◌}
use ajah.Text.Prefixes.{unlike, joined_eq}
use ajah.Attribution.Keys.{daily, user_cost_key, feature_cost_key, model_cost_key, retry_key}
use ajah.Gateway.Alerts.{alert_key, budget_key, traces_key}

-- What follows the beginning of a key.
abbrev end_of : String → String → String → String
end_of name sep rest = str_append name (str_append sep rest)

pub alert_eq :
    (a b day day' : String)
    → len day ≡ len day'
    → str_eq (alert_key a day) (alert_key b day') ≡ (str_eq a b && str_eq day day')
unfolding alert_key
alert_eq a b day day' = joined_eq "alerts:fired:" ":" a b day day'

module _ (feature day : String) where
  pub user-unlike_alert :
      (a d : String) → str_eq (user_cost_key a d) (alert_key feature day) ≡ false
  unfolding user_cost_key daily alert_key
  user-unlike_alert a d =
      unlike "" "c" "a" "ost:user:" "lerts:fired:" (end_of a ":daily:" d) (end_of feature ":" day)
        refl refl

  pub feature-unlike_alert :
      (a d : String) → str_eq (feature_cost_key a d) (alert_key feature day) ≡ false
  unfolding feature_cost_key daily alert_key
  feature-unlike_alert a d =
      unlike "" "c" "a" "ost:feature:" "lerts:fired:" (end_of a ":daily:" d)
        (end_of feature ":" day) refl refl

  pub model-unlike_alert :
      (a d : String) → str_eq (model_cost_key a d) (alert_key feature day) ≡ false
  unfolding model_cost_key daily alert_key
  model-unlike_alert a d =
      unlike "" "c" "a" "ost:model:" "lerts:fired:" (end_of a ":daily:" d) (end_of feature ":" day)
        refl refl

  pub retry-unlike_alert :
      (u g s : String) → str_eq (retry_key u g s) (alert_key feature day) ≡ false
  unfolding retry_key alert_key
  retry-unlike_alert u g s =
      unlike "" "r" "a" "etry:" "lerts:fired:" (end_of u ":" (str_append g (str_append ":" s)))
        (end_of feature ":" day) refl refl

  pub traces-unlike_alert : (d : String) → str_eq (traces_key d) (alert_key feature day) ≡ false
  unfolding traces_key alert_key
  traces-unlike_alert d =
      unlike "" "t" "a" "races:daily:" "lerts:fired:" d (end_of feature ":" day) refl refl

  pub budget-unlike_alert : (a d : String) → str_eq (budget_key a d) (alert_key feature day) ≡ false
  unfolding budget_key alert_key
  budget-unlike_alert a d =
      unlike "" "b" "a" "udget:fired:" "lerts:fired:" (end_of a ":" d) (end_of feature ":" day) refl
        refl

  pub list-unlike_alert : str_eq "alerts:list" (alert_key feature day) ≡ false
  unfolding alert_key
  list-unlike_alert = unlike "alerts:" "list" "fire" "" "d:" "" (end_of feature ":" day) refl refl

  pub traces-unlike_feature :
      (d : String) → str_eq (traces_key d) (feature_cost_key feature day) ≡ false
  unfolding traces_key feature_cost_key daily
  traces-unlike_feature d =
      unlike "" "t" "c" "races:daily:" "ost:feature:" d (end_of feature ":daily:" day) refl refl

  pub alert-unlike_feature :
      (a d : String) → str_eq (alert_key a d) (feature_cost_key feature day) ≡ false
  unfolding alert_key feature_cost_key daily
  alert-unlike_feature a d =
      unlike "" "a" "c" "lerts:fired:" "ost:feature:" (end_of a ":" d)
        (end_of feature ":daily:" day) refl refl

  pub budget-unlike_feature :
      (a d : String) → str_eq (budget_key a d) (feature_cost_key feature day) ≡ false
  unfolding budget_key feature_cost_key daily
  budget-unlike_feature a d =
      unlike "" "b" "c" "udget:fired:" "ost:feature:" (end_of a ":" d)
        (end_of feature ":daily:" day) refl refl

  pub list-unlike_feature : str_eq "alerts:list" (feature_cost_key feature day) ≡ false
  unfolding feature_cost_key daily
  list-unlike_feature =
      unlike "" "a" "c" "lerts:list" "ost:feature:" "" (end_of feature ":daily:" day) refl refl
