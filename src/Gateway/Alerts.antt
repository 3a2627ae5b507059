-- ===== src/Gateway/Alerts.antt =====
-- The counter of the traces and the alerts on the costs of a day, in the processing of an event in
-- cmd/gateway/main.go. `day` is the event's date in UTC; json.Marshal and the answer to GetSMTPConfig are
-- parameters. What is started in a goroutine is a result.
use Prim.Native.String.{◌++◌ as str_append}
use ajah.Prelude.{
  ℕ, Bool, true, false, String, str_eq, List, [], ◌∷◌, ◌++◌, Option, none, some, if◌then◌else◌,
}
use ajah.Text.{Bytes, ascii}
use ajah.Float.{Float64}
use ajah.Redis.Counters.{Counters}
use ajah.Text.Prefixes.{joined}
use ajah.Attribution.Keys.{user_cost_key, feature_cost_key}
use ajah.Db.Settings.{
  Caches, UserSetting, threshold_for, webhook_url_for, alert_email_for, user_setting_for,
}

unfoldable pub alert_key : String → String → String
alert_key feature day = joined "alerts:fired:" ":" feature day

unfoldable pub budget_key : String → String → String
budget_key user day = joined "budget:fired:" ":" user day

-- In seconds: 25 hours, 90 days.
abbrev pub mark_ttl : ℕ
mark_ttl = 90000

abbrev pub daily_key_ttl : ℕ
daily_key_ttl = 7776000

unfoldable pub traces_key : String → String
traces_key day = str_append "traces:daily:" day

module _ (f : Float64) where
  pub record AlertResponse : Type 0 where
    pub feature : String
    pub threshold : f.F
    pub actual : f.F

  -- What is sent: a webhook to a URL, or an email to an address with the mail server's settings.
  pub data Notice (Smtp : Type 0) : Type 0 where
    cost_webhook : String → String → f.F → f.F → String → Notice Smtp
    cost_email : Smtp → String → String → f.F → f.F → String → Notice Smtp
    budget_webhook : String → String → f.F → f.F → Notice Smtp
    budget_email : Smtp → String → String → f.F → f.F → Notice Smtp

  module _ {Db : Type 0} (c : Counters f Db) where
    -- The counter of a day's traces.
    unfoldable pub count_trace : String → Db → Db
    count_trace day db =
        let (counted, reply) = c.incr (traces_key day) db in
        elim reply [ none ↦ counted | some n ↦ (c.expire (traces_key day) daily_key_ttl counted).0 ]

  module _ {Smtp : Type 0} where
    abbrev hook : String → Notice Smtp → List (Notice Smtp)
    hook url notice = if str_eq url "" then [] else notice ∷ []

    abbrev mail : Option Smtp → String → (Smtp → Notice Smtp) → List (Notice Smtp)
    mail none address notice = []
    mail (some smtp) address notice = if str_eq address "" then [] else notice smtp ∷ []

    -- The notices of an alert on a feature's costs.
    unfoldable pub cost_notices :
        Caches f → Option Smtp → String → f.F → f.F → String → List (Notice Smtp)
    cost_notices caches smtp feature cost threshold model =
        hook (webhook_url_for f caches feature)
          (cost_webhook (webhook_url_for f caches feature) feature cost threshold model)
        ++ mail smtp (alert_email_for f caches feature)
            (λ s. cost_email s (alert_email_for f caches feature) feature cost threshold model)

    unfoldable pub budget_notices : Option Smtp → String → UserSetting f → f.F → List (Notice Smtp)
    budget_notices smtp user s cost =
        hook s.webhook_url (budget_webhook s.webhook_url user cost s.budget_usd_per_day)
        ++ mail smtp s.alert_email_to
            (λ m. budget_email m s.alert_email_to user cost s.budget_usd_per_day)

    module _ {Db : Type 0} (c : Counters f Db) (marshal : AlertResponse → Option Bytes)
        (caches : Caches f) (smtp : Option Smtp) where
      -- What is left in Redis, the notices, and whether the alert was raised.
      pub record Raised : Type 0 where
        pub db : Db
        pub notices : List (Notice Smtp)
        pub raised : Bool

      abbrev pub quiet : Db → Raised
      quiet db = record { db = db; notices = []; raised = false }

      -- The alert itself, once its mark is set. An alert that cannot be marshalled is given up.
      unfoldable pub raise_alert : AlertResponse → String → Db → Raised
      raise_alert alert model db = elim (marshal alert) [
        | none ↦ quiet db
        | some json ↦ record {
          db = c.push_trim "alerts:list" json 100 db;
          notices = cost_notices caches smtp alert.feature alert.actual alert.threshold model;
          raised = true;
        }
      ]

      -- What follows SETNX: only the call that set the mark raises.
      abbrev pub after_mark : AlertResponse → String → Db × Option Bool → Raised
      after_mark alert model (db, none) = quiet db
      after_mark alert model (db, some false) = quiet db
      after_mark alert model (db, some true) = raise_alert alert model db

      unfoldable pub check_cost : String → String → String → Db → Raised
      check_cost feature model day db =
          if str_eq feature ""
          then quiet db
          else elim (c.get_float (feature_cost_key feature day) db) [
            | none ↦ quiet db
            | some cost ↦
                if f.ltb (threshold_for f caches feature) cost
                then after_mark
                    (record {
                      feature = feature;
                      threshold = threshold_for f caches feature;
                      actual = cost;
                    })
                    model (c.set_nx (alert_key feature day) (ascii "1") mark_ttl db)
                else quiet db
          ]

      -- What follows the write of the trace: nothing of this if it failed.
      unfoldable pub after_write : Bool → String → String → String → Db → Raised
      after_write false feature model day db = quiet db
      after_write true feature model day db = check_cost feature model day (count_trace c day db)

      abbrev pub after_budget_mark : String → UserSetting f → f.F → Db × Option Bool → Raised
      after_budget_mark user s cost (db, none) = quiet db
      after_budget_mark user s cost (db, some false) = quiet db
      after_budget_mark user s cost (db, some true) = record {
        db = db;
        notices = budget_notices smtp user s cost;
        raised = true;
      }

      -- A counter that does not read as a number counts as 0 in the code, which is above no budget.
      unfoldable pub check_budget : String → String → Db → Raised
      check_budget user day db =
          if str_eq user "" then quiet db else elim (user_setting_for f caches user) [
            | none ↦ quiet db
            | some s ↦
                if f.ltb (f.lit 0 0) s.budget_usd_per_day
                then elim (c.get_float (user_cost_key user day) db) [
                  | none ↦ quiet db
                  | some cost ↦
                      if f.ltb s.budget_usd_per_day cost
                      then after_budget_mark user s cost
                          (c.set_nx (budget_key user day) (ascii "1") mark_ttl db)
                      else quiet db
                ]
                else quiet db
          ]
