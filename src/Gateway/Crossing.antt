-- ===== src/Gateway/Crossing.antt =====
-- The alert on a feature's costs is raised once a day, by the event that crosses the threshold.
use Prim.Native.String.{len}
use ajah.Prelude.{
  ℕ, ◌+◌, ◌≡◌, ◌≢◌, refl, ap, ◌∙◌, Bool, true, false, not, ◌&&◌, ◌||◌, String, str_eq, eq_iff, List,
  [], ◌∷◌, Option, some, All, if◌then◌else◌, Bool-cases, inl, inr, arith,
}
use ajah.Text.{Bytes}
use ajah.Float.{Float64}
use ajah.Redis.Counters.{Counters, IsCounting}
use ajah.Proxy.{Event}
use ajah.Attribution.{cost_of, cost_keys, process}
use ajah.Attribution.Keys.{feature_cost_key, feature_eq, retry-unlike_feature}
use ajah.Attribution.Spending.{amount-process}
use ajah.Db.Settings.{Caches, threshold_for}
use ajah.Gateway.Alerts.{AlertResponse, Raised, alert_key, count_trace, after_write}
use ajah.Gateway.Settling.{settle, Settled}
use ajah.Gateway.AlertKeys
use ajah.Gateway.Raising.{
  holds-process, count_trace-holds, count_trace-Keeps, check_budget-Keeps, check_cost-Keeps,
  check_cost-own,
}

module _ {f : Float64} {Db : Type 0} {c : Counters f Db} (law : IsCounting f Db c)
    (feature day : String) where
  abbrev pub total : Db → f.F
  total db = law.amount db (feature_cost_key feature day)

  abbrev pub marked : Db → Bool
  marked db = law.holds db (alert_key feature day)

-- An event with its day, and whether its trace is written.
pub record Done (Int Scan : Type 0) : Type 0 where
  pub day : String
  pub event : Event Int Scan
  pub written : Bool

module _ (f : Float64) {Int Scan : Type 0} (to_float : Int → f.F) (text : Bytes → String)
    (feature day : String) where
  abbrev pub is_of : Done Int Scan → Bool
  is_of x = str_eq x.event.feature_name feature && str_eq x.day day

  abbrev pub grown : Done Int Scan → f.F → f.F
  grown x total = if is_of x then f.add total (cost_of f to_float text x.event) else total

  -- Whether the costs, added up, are above the threshold at an event of the feature and the day whose
  -- trace is written.
  abbrev pub crosses : f.F → List (Done Int Scan) → f.F → Bool
  crosses threshold [] total = false
  crosses threshold (x ∷ xs) total =
      (is_of x && (x.written && f.ltb threshold (grown x total)))
      || crosses threshold xs (grown x total)

  module _ {Db : Type 0} (c : Counters f Db) {Smtp : Type 0}
      (marshal : AlertResponse f → Option Bytes) (caches : Caches f) (smtp : Option Smtp) where
    -- How many alerts on the feature's costs of the day are raised, of any events one after the other.
    unfoldable pub alerts_in : List (Done Int Scan) → Db → ℕ
    alerts_in [] db = 0
    alerts_in (x ∷ xs) db =
        let s : Settled f c marshal caches smtp =
          settle f c marshal caches smtp to_float text x.day x.event x.written db in
        (if is_of x && s.cost_alert.raised then 1 else 0) + alerts_in xs s.db

    module _ (law : IsCounting f Db c) (given : feature ≢ "")
        (encodes : (a : AlertResponse f) → (json : Bytes) × (marshal a ≡ some json)) where
      marked-process :
          (x : Done Int Scan) (db : Db)
          → marked law feature day (process f c to_float text x.day x.event db).db
            ≡ marked law feature day db
      unfolding cost_keys
      marked-process x db = ground (
        arith,
        holds-process f c law to_float text x.day x.event db (alert_key feature day) (
            AlertKeys.retry-unlike_alert feature day x.event.user_id x.event.feature_name
              x.event.agent_step),
        AlertKeys.user-unlike_alert feature day x.event.user_id x.day,
        AlertKeys.feature-unlike_alert feature day x.event.feature_name x.day,
        AlertKeys.model-unlike_alert feature day (text x.event.model) x.day,
      )

      -- The costs that the event leaves.
      costed : Done Int Scan → Db → Db
      costed x db = (process f c to_float text x.day x.event db).db

      written_of : Done Int Scan → Db → Raised f c marshal caches smtp
      written_of x db =
          after_write f c marshal caches smtp x.written x.event.feature_name (text x.event.model)
            x.day (costed x db)

      after_write-other :
          (x : Done Int Scan) (db : Db)
          → len x.day ≡ len day
          → is_of x ≡ false
          → (total law feature day (written_of x db).db ≡ total law feature day db)
            × (marked law feature day (written_of x db).db ≡ marked law feature day db)
      unfolding after_write written_of costed
      after_write-other x db same other =
          let after : Db = (process f c to_float text x.day x.event db).db in
          let counted : Db = count_trace f c x.day after in
          let apart : str_eq (alert_key x.event.feature_name x.day) (alert_key feature day)
              ≡ false =
            AlertKeys.alert_eq x.event.feature_name feature x.day day same ∙ other in
          let (sum, held) = count_trace-Keeps f c law marshal caches smtp feature day x.day after in
          let (sum2, held2) =
            check_cost-Keeps f c law marshal caches smtp feature day x.event.feature_name
              (text x.event.model) x.day counted apart in
          (
            ground (
              arith,
              sum,
              sum2,
              amount-process f to_float text c law feature day x.day x.event db same,
            ),
            ground (arith, held, held2, marked-process x db),
          )

      -- The counter of the event's feature and day is there.
      process-holds :
          (x : Done Int Scan) (db : Db)
          → len x.day ≡ len day
          → is_of x ≡ true
          → law.holds (process f c to_float text x.day x.event db).db (feature_cost_key feature day)
            ≡ true
      unfolding cost_keys
      process-holds x db same own = ground (
        arith,
        holds-process f c law to_float text x.day x.event db (feature_cost_key feature day) (
            retry-unlike_feature x.event.user_id x.event.feature_name x.event.agent_step feature
              day),
        feature_eq x.event.feature_name feature x.day day same,
      )

      written_of-named :
          (x : Done Int Scan) (db : Db)
          → is_of x ≡ true
          → written_of x db
            ≡ after_write f c marshal caches smtp x.written feature
                (text x.event.model)
                day
                (costed x db)
      unfolding written_of
      written_of-named x db own =
          let named : x.event.feature_name ≡ feature =
            ground (arith, eq_iff x.event.feature_name feature) in
          let timed : x.day ≡ day = ground (arith, eq_iff x.day day) in
          ap
            (λ n.
              after_write f c marshal caches smtp x.written n (text x.event.model) x.day
                (costed x db))
            named
          ∙ ap
              (λ d.
                after_write f c marshal caches smtp x.written feature (text x.event.model) d
                  (costed x db))
              timed

      after_write-own :
          (x : Done Int Scan) (db : Db)
          → len x.day ≡ len day
          → is_of x ≡ true
          → (total law feature day (written_of x db).db ≡ grown x (total law feature day db))
            × (marked law feature day (written_of x db).db ≡ (
                marked law feature day db
                || (x.written
                    && f.ltb
                        (threshold_for f caches feature)
                        (grown x (total law feature day db)))))
            × ((written_of x db).raised ≡ (
                (x.written
                  && f.ltb (threshold_for f caches feature) (grown x (total law feature day db)))
                && not (marked law feature day db)))
      unfolding after_write costed
      after_write-own x db same own =
          let after : Db = (process f c to_float text x.day x.event db).db in
          let counted : Db = count_trace f c day after in
          let (sum, held) = count_trace-Keeps f c law marshal caches smtp feature day day after in
          let there : law.holds counted (feature_cost_key feature day) ≡ true =
            count_trace-holds f c law feature day day after ∙ process-holds x db same own in
          let (sum2, held2, raised) =
            check_cost-own f c law marshal caches smtp feature day (text x.event.model) counted
              given encodes there in
          let spent : total law feature day after ≡ grown x (total law feature day db) =
            amount-process f to_float text c law feature day x.day x.event db same in
          let before : marked law feature day after ≡ marked law feature day db =
            marked-process x db in
          let alike : written_of x db
              ≡ after_write f c marshal caches smtp x.written feature (text x.event.model) day
                  after =
            written_of-named x db own in
          let sums : total law feature day counted ≡ grown x (total law feature day db) =
            sum ∙ spent in
          let above : f.ltb (threshold_for f caches feature)
                (law.amount counted (feature_cost_key feature day))
              ≡ f.ltb (threshold_for f caches feature) (grown x (total law feature day db)) =
            ap (f.ltb (threshold_for f caches feature)) sums in
          (
            ap (λ r. total law feature day r.db) alike ∙ ground arith,
            ap (λ r. marked law feature day r.db) alike ∙ ground arith,
            ap (λ r. r.raised) alike ∙ ground arith,
          )

      -- What is settled of an event: the costs and the mark after it, and whether the alert is raised.
      settle-own :
          (x : Done Int Scan) (db : Db)
          → len x.day ≡ len day
          → (total law feature day
                (settle f c marshal caches smtp to_float text x.day x.event x.written db).db
              ≡ grown x (total law feature day db))
            × (marked law feature day
                  (settle f c marshal caches smtp to_float text x.day x.event x.written db).db
                ≡ (marked law feature day db
                    || (is_of x
                        && (x.written
                            && f.ltb
                                (threshold_for f caches feature)
                                (grown x (total law feature day db))))))
            × ((is_of x
                  && (settle f c marshal caches smtp to_float text x.day x.event x.written
                      db).cost_alert.raised)
                ≡ ((is_of x
                      && (x.written
                          && f.ltb
                              (threshold_for f caches feature)
                              (grown x (total law feature day db))))
                    && not (marked law feature day db)))
      unfolding settle written_of costed
      settle-own x db same = elim (Bool-cases (is_of x)) [
        | inl own ↦
            let (sum, held, raised) = after_write-own x db same own in
            let (kept, kept_mark) =
              check_budget-Keeps f c law marshal caches smtp feature day x.event.user_id x.day
                (written_of x db).db in
            (kept ∙ sum, ground (arith, kept_mark, held), ground (arith, raised))
        | inr other ↦
            let (sum, held) = after_write-other x db same other in
            let (kept, kept_mark) =
              check_budget-Keeps f c law marshal caches smtp feature day x.event.user_id x.day
                (written_of x db).db in
            (ground (arith, kept, sum), ground (arith, kept_mark, held), ground arith)
      ]

      alerts_in-from :
          (xs : List (Done Int Scan)) (db : Db)
          → All (λ (x : Done Int Scan). len x.day ≡ len day) xs
          → alerts_in xs db ≡ (
              if crosses (threshold_for f caches feature) xs (total law feature day db)
              then (if marked law feature day db then 0 else 1)
              else 0)
      unfolding alerts_in
      alerts_in-from [] db h = refl
      alerts_in-from (x ∷ xs) db h =
          let next : Db =
            (settle f c marshal caches smtp to_float text x.day x.event x.written db).db in
          let (sum, held, raised) = settle-own x db h.0 in
          let later : alerts_in xs next ≡ (
              if crosses (threshold_for f caches feature) xs (grown x (total law feature day db))
              then (if marked law feature day next then 0 else 1)
              else 0) =
            alerts_in-from xs next h.1
            ∙ ap
                (λ t.
                  if crosses (threshold_for f caches feature) xs t
                  then (if marked law feature day next then 0 else 1)
                  else 0)
                sum in
          ground (arith, later, held, raised)

      -- While Redis can be reached and keeps the mark, and with alerts that encode: of any events, of
      -- days written with as many characters, at most one raises the alert on a feature's costs of a
      -- day, if none was raised before. One does exactly if the costs of the feature and the day, with
      -- those that were counted before, are above the feature's threshold at one of its events of the
      -- day whose trace is written.
      pub alerts_in_lem :
          (xs : List (Done Int Scan)) (db : Db)
          → All (λ (x : Done Int Scan). len x.day ≡ len day) xs
          → law.holds db (alert_key feature day) ≡ false
          → alerts_in xs db ≡ (
              if crosses
                (threshold_for f caches feature)
                xs
                (law.amount db (feature_cost_key feature day))
              then 1
              else 0)
      alerts_in_lem xs db h fresh = ground (arith, alerts_in-from xs db h, fresh)
