-- ===== src/Gateway/Settling.antt =====
-- The costs of an event, from their counters to the alerts, in the order of the processing in
-- cmd/gateway/main.go. The trace is written in between: `written` is whether that succeeds. What is
-- written to Redis under other keys in between, warnings, flags and anomalies, is left out.
use ajah.Prelude.{Bool, String, Option}
use ajah.Text.{Bytes}
use ajah.Float.{Float64}
use ajah.Redis.Counters.{Counters}
use ajah.Proxy.{Event}
use ajah.Attribution.{process}
use ajah.Db.Settings.{Caches}
use ajah.Gateway.Alerts.{AlertResponse, Raised, after_write, check_budget}

module _ (f : Float64) {Db : Type 0} (c : Counters f Db) {Smtp : Type 0}
    (marshal : AlertResponse f → Option Bytes) (caches : Caches f) (smtp : Option Smtp) where
  -- The alerts on the feature's costs and on the user's budget.
  pub record Settled : Type 0 where
    pub db : Db
    pub cost_alert : Raised f c marshal caches smtp
    pub budget_alert : Raised f c marshal caches smtp

  unfoldable pub settle :
      {Int Scan : Type 0}
      → (Int → f.F)
      → (Bytes → String)
      → String
      → Event Int Scan
      → Bool
      → Db
      → Settled
  settle to_float text day event written db =
      let costed : Db = (process f c to_float text day event db).db in
      let cost : Raised f c marshal caches smtp =
        after_write f c marshal caches smtp written event.feature_name (text event.model) day
          costed in
      let budget : Raised f c marshal caches smtp =
        check_budget f c marshal caches smtp event.user_id day cost.db in
      record { db = budget.db; cost_alert = cost; budget_alert = budget }
