-- ===== src/Gateway/Raising.antt =====
-- When the alert on a feature's costs is raised.

use text.Mathlib.TextPositions.{eq_refl}
use ajah.Prelude.{
  ◌≡◌, ◌≢◌, refl, Bool, true, false, not, ◌&&◌, ◌||◌, String, str_eq, eq_iff, List, [], ◌∷◌, Option,
  some, Option-cases, inl, inr, arith,
}
use ajah.Text.{Bytes, ascii}
use ajah.Float.{Float64}
use ajah.Redis.Counters.{Counters, IsCounting}
use ajah.Proxy.{Event}
use ajah.Attribution.{
  cost_of, cost_keys, add_costs, publish_cost, after_count, check_retry_loop, process, cost_key_ttl,
  retry_window,
}
use ajah.Attribution.Keys.{feature_cost_key, retry_key}
use ajah.Attribution.Spending.{add_costs-published}
use ajah.Db.Settings.{Caches, threshold_for}
use ajah.Gateway.Alerts.{
  AlertResponse, alert_key, budget_key, traces_key, mark_ttl, daily_key_ttl, raise_alert,
  check_cost, count_trace, check_budget,
}
use ajah.Gateway.AlertKeys

module _ (f : Float64) {Db : Type 0} (c : Counters f Db) (law : IsCounting f Db c) where
  -- Whether a list of keys has one.
  abbrev pub has_key : List String → String → Bool
  has_key [] j = false
  has_key (k ∷ ks) j = str_eq k j || has_key ks j

  holds-add_costs :
      (keys : List String) (cost : f.F) (db : Db) (j : String)
      → law.holds (add_costs f c keys cost db).0 j ≡ (has_key keys j || law.holds db j)
  unfolding add_costs
  holds-add_costs [] cost db j = refl
  holds-add_costs (key ∷ keys) cost db j =
      let added : Db = (c.incr_by_float key cost db).0 in
      let expired : Db = (c.expire key cost_key_ttl added).0 in
      ground (
        arith,
        law.incr_by_float_reply key cost db,
        law.holds-expire key cost_key_ttl added j,
        law.holds-incr_by_float key cost db j,
        holds-add_costs keys cost expired j,
      )

  pub count_trace-holds :
      (feature day d : String) (db : Db)
      → law.holds (count_trace f c d db) (feature_cost_key feature day)
        ≡ law.holds db (feature_cost_key feature day)
  unfolding count_trace
  count_trace-holds feature day d db =
      let counted : Db = (c.incr (traces_key d) db).0 in
      ground (
        arith,
        law.incr_reply (traces_key d) db,
        law.holds-incr (traces_key d) db (feature_cost_key feature day),
        law.holds-expire (traces_key d) daily_key_ttl counted (feature_cost_key feature day),
        AlertKeys.traces-unlike_feature feature day d,
      )

  module _ {Int Scan : Type 0} (to_float : Int → f.F) (text : Bytes → String) where
    -- What the costs and the retry counter leave held.
    pub holds-process :
        (day : String) (e : Event Int Scan) (db : Db) (j : String)
        → str_eq (retry_key e.user_id e.feature_name e.agent_step) j ≡ false
        → law.holds (process f c to_float text day e db).db j
          ≡ (has_key (cost_keys f text day e) j || law.holds db j)
    unfolding process publish_cost check_retry_loop after_count
    holds-process day e db j apart =
        let cost : f.F = cost_of f to_float text e in
        let keys : List String = cost_keys f text day e in
        let costed : Db = (add_costs f c keys cost db).0 in
        let key : String = retry_key e.user_id e.feature_name e.agent_step in
        ground (
          arith,
          add_costs-published f c law keys cost db,
          holds-add_costs keys cost db j,
          law.incr_reply key costed,
          law.holds-incr key costed j,
          law.holds-expire key retry_window (c.incr key costed).0 j,
        )

  module _ {Smtp : Type 0} (marshal : AlertResponse f → Option Bytes) (caches : Caches f)
      (smtp : Option Smtp) where
    module _ (feature day : String) where
      abbrev pub cost_key : String
      cost_key = feature_cost_key feature day

      abbrev pub mark : String
      mark = alert_key feature day

      -- What is counted of the feature and the day stays as it is, and so does the mark.
      abbrev pub Keeps : Db → Db → Type 0
      Keeps db db' =
          (law.amount db' cost_key ≡ law.amount db cost_key)
          × (law.holds db' mark ≡ law.holds db mark)

      pub count_trace-Keeps : (d : String) (db : Db) → Keeps db (count_trace f c d db)
      unfolding count_trace
      count_trace-Keeps d db =
          let counted : Db = (c.incr (traces_key d) db).0 in
          (
            ground (
              arith,
              law.incr_reply (traces_key d) db,
              law.amount-incr (traces_key d) db cost_key,
              law.amount-expire (traces_key d) daily_key_ttl counted cost_key,
              AlertKeys.traces-unlike_feature feature day d,
            ),
            ground (
              arith,
              law.incr_reply (traces_key d) db,
              law.holds-incr (traces_key d) db mark,
              law.holds-expire (traces_key d) daily_key_ttl counted mark,
              AlertKeys.traces-unlike_alert feature day d,
            ),
          )

      pub check_budget-Keeps :
          (user d : String) (db : Db) → Keeps db (check_budget f c marshal caches smtp user d db).db
      unfolding check_budget
      check_budget-Keeps user d db =
          let marked : Db = (c.set_nx (budget_key user d) (ascii "1") mark_ttl db).0 in
          (
            ground (
              arith,
              law.set_nx_reply (budget_key user d) (ascii "1") mark_ttl db,
              law.amount-set_nx (budget_key user d) (ascii "1") mark_ttl db cost_key,
              AlertKeys.budget-unlike_feature feature day user d,
            ),
            ground (
              arith,
              law.set_nx_reply (budget_key user d) (ascii "1") mark_ttl db,
              law.holds-set_nx (budget_key user d) (ascii "1") mark_ttl db mark,
              AlertKeys.budget-unlike_alert feature day user d,
            ),
          )

      pub check_cost-Keeps :
          (g model d : String) (db : Db)
          → str_eq (alert_key g d) mark ≡ false
          → Keeps db (check_cost f c marshal caches smtp g model d db).db
      unfolding check_cost raise_alert
      check_cost-Keeps g model d db apart =
          let key : String = alert_key g d in
          let marked : Db = (c.set_nx key (ascii "1") mark_ttl db).0 in
          let alert : f.F → AlertResponse f =
            (λ cost. record { feature = g; threshold = threshold_for f caches g; actual = cost }) in
          elim (Option-cases (c.get_float (feature_cost_key g d) db)) [
            | inl absent ↦ (ground arith, ground arith)
            | inr (cost, there) ↦ elim (Option-cases (marshal (alert cost))) [
              | inl refused ↦ (
                ground (
                  arith,
                  law.set_nx_reply key (ascii "1") mark_ttl db,
                  law.amount-set_nx key (ascii "1") mark_ttl db cost_key,
                  AlertKeys.alert-unlike_feature feature day g d,
                ),
                ground (
                  arith,
                  law.set_nx_reply key (ascii "1") mark_ttl db,
                  law.holds-set_nx key (ascii "1") mark_ttl db mark,
                ),
              )
              | inr (json, encoded) ↦ (
                ground (
                  arith,
                  law.set_nx_reply key (ascii "1") mark_ttl db,
                  law.amount-set_nx key (ascii "1") mark_ttl db cost_key,
                  law.amount-push_trim "alerts:list" json 100 marked cost_key,
                  AlertKeys.alert-unlike_feature feature day g d,
                  AlertKeys.list-unlike_feature feature day,
                ),
                ground (
                  arith,
                  law.set_nx_reply key (ascii "1") mark_ttl db,
                  law.holds-set_nx key (ascii "1") mark_ttl db mark,
                  law.holds-push_trim "alerts:list" json 100 marked mark,
                  AlertKeys.list-unlike_alert feature day,
                ),
              )
            ]
          ]

      -- A check of the feature and the day itself, whose counter is held.
      pub check_cost-own :
          (model : String) (db : Db)
          → feature ≢ ""
          → ((a : AlertResponse f) → (json : Bytes) × (marshal a ≡ some json))
          → law.holds db cost_key ≡ true
          → (law.amount (check_cost f c marshal caches smtp feature model day db).db cost_key
              ≡ law.amount db cost_key)
            × (law.holds (check_cost f c marshal caches smtp feature model day db).db mark ≡ (
                law.holds db mark
                || f.ltb (threshold_for f caches feature) (law.amount db cost_key)))
            × ((check_cost f c marshal caches smtp feature model day db).raised ≡ (
                f.ltb (threshold_for f caches feature) (law.amount db cost_key)
                && not (law.holds db mark)))
      unfolding check_cost raise_alert
      check_cost-own model db given encodes held =
          let marked : Db = (c.set_nx mark (ascii "1") mark_ttl db).0 in
          let (json, encoded) = encodes (record {
            feature = feature;
            threshold = threshold_for f caches feature;
            actual = law.amount db cost_key;
          }) in
          (
            ground (
              arith,
              eq_iff feature "",
              law.get_float_lem cost_key db,
              law.set_nx_reply mark (ascii "1") mark_ttl db,
              law.amount-set_nx mark (ascii "1") mark_ttl db cost_key,
              law.amount-push_trim "alerts:list" json 100 marked cost_key,
              AlertKeys.alert-unlike_feature feature day feature day,
              AlertKeys.list-unlike_feature feature day,
            ),
            ground (
              arith,
              eq_iff feature "",
              eq_refl mark,
              law.get_float_lem cost_key db,
              law.set_nx_reply mark (ascii "1") mark_ttl db,
              law.holds-set_nx mark (ascii "1") mark_ttl db mark,
              law.holds-push_trim "alerts:list" json 100 marked mark,
              AlertKeys.list-unlike_alert feature day,
            ),
            ground (
              arith,
              eq_iff feature "",
              law.get_float_lem cost_key db,
              law.set_nx_reply mark (ascii "1") mark_ttl db,
            ),
          )
