-- ===== src/Attribution/Spending.antt =====
-- What a feature's daily counter holds after any events.
use Prim.Native.String.{len}
use ajah.Prelude.{
  ◌≡◌, refl, ap, ◌∙◌, true, ◌&&◌, String, str_eq, eq_iff, List, [], ◌∷◌, All, if◌then◌else◌, arith,
}
use ajah.Text.{Bytes}
use ajah.Float.{Float64}
use ajah.Redis.Counters.{Counters, IsCounting}
use ajah.Proxy.{Event}
use ajah.Attribution.{
  cost_of, cost_keys, add_costs, publish_cost, after_count, check_retry_loop, process, cost_key_ttl,
  retry_window,
}
use ajah.Attribution.Keys.{
  feature_cost_key, retry_key, feature_eq, user-unlike_feature, model-unlike_feature,
  retry-unlike_feature,
}

module _ (f : Float64) where
  -- What a counter gets from the keys that are its own.
  abbrev gained : List String → String → f.F → f.F → f.F
  gained [] j cost total = total
  gained (k ∷ ks) j cost total = gained ks j cost (if str_eq k j then f.add total cost else total)

  module _ {Db : Type 0} (c : Counters f Db) (law : IsCounting f Db c) where
    pub add_costs-published :
        (keys : List String) (cost : f.F) (db : Db) → (add_costs f c keys cost db).1 ≡ true
    unfolding add_costs
    add_costs-published [] cost db = refl
    add_costs-published (key ∷ keys) cost db =
        let expired : Db = (c.expire key cost_key_ttl (c.incr_by_float key cost db).0).0 in
        ground (arith, law.incr_by_float_reply key cost db, add_costs-published keys cost expired)

    amount-add_costs :
        (keys : List String) (cost : f.F) (db : Db) (j : String)
        → law.amount (add_costs f c keys cost db).0 j ≡ gained keys j cost (law.amount db j)
    unfolding add_costs
    amount-add_costs [] cost db j = refl
    amount-add_costs (key ∷ keys) cost db j =
        let expired : Db = (c.expire key cost_key_ttl (c.incr_by_float key cost db).0).0 in
        let before : law.amount expired j
            ≡ (if str_eq key j then f.add (law.amount db j) cost else law.amount db j) =
          ground (
            arith,
            law.amount-expire key cost_key_ttl (c.incr_by_float key cost db).0 j,
            law.amount-incr_by_float key cost db j,
            eq_iff key j,
            ap (law.amount db) {x = key} {y = j},
          ) in
        let first : (add_costs f c (key ∷ keys) cost db).0 ≡ (add_costs f c keys cost expired).0 =
          ground (arith, law.incr_by_float_reply key cost db) in
        ap (λ d. law.amount d j) first
        ∙ amount-add_costs keys cost expired j
        ∙ ap (gained keys j cost) before

    -- The retry counter is not the counter of a feature's cost.
    amount-check_retry_loop :
        {Int Scan : Type 0} (e : Event Int Scan) (feature day : String) (db : Db)
        → law.amount (check_retry_loop f c e db).0 (feature_cost_key feature day)
          ≡ law.amount db (feature_cost_key feature day)
    unfolding check_retry_loop after_count
    amount-check_retry_loop e feature day db =
        let key : String = retry_key e.user_id e.feature_name e.agent_step in
        let counted : Db = (c.incr key db).0 in
        ground (
          arith,
          law.incr_reply key db,
          law.amount-incr key db (feature_cost_key feature day),
          law.amount-expire key retry_window counted (feature_cost_key feature day),
          retry-unlike_feature e.user_id e.feature_name e.agent_step feature day,
        )

  module _ {Int Scan : Type 0} (to_float : Int → f.F) (text : Bytes → String) where
    -- Events with their days, oldest first, and the cost of those of one feature and day, added up.
    abbrev pub spent : String → String → List (String × Event Int Scan) → f.F → f.F
    spent feature day [] total = total
    spent feature day ((d, e) ∷ es) total = spent feature day es (
        if str_eq e.feature_name feature && str_eq d day
        then f.add total (cost_of f to_float text e)
        else total)

    module _ {Db : Type 0} (c : Counters f Db) where
      unfoldable pub process_all : List (String × Event Int Scan) → Db → Db
      process_all [] db = db
      process_all ((d, e) ∷ es) db = process_all es (process f c to_float text d e db).db

      module _ (law : IsCounting f Db c) where
        gained-cost_keys :
            (feature day d : String) (e : Event Int Scan) (cost total : f.F)
            → len d ≡ len day
            → gained (cost_keys f text d e) (feature_cost_key feature day) cost total
              ≡ (if str_eq e.feature_name feature && str_eq d day then f.add total cost else total)
        unfolding cost_keys
        gained-cost_keys feature day d e cost total same = ground (
          arith,
          user-unlike_feature e.user_id feature d day,
          model-unlike_feature (text e.model) feature d day,
          feature_eq e.feature_name feature d day same,
        )

        pub amount-process :
            (feature day d : String) (e : Event Int Scan) (db : Db)
            → len d ≡ len day
            → law.amount (process f c to_float text d e db).db (feature_cost_key feature day) ≡ (
                if str_eq e.feature_name feature && str_eq d day
                then f.add
                    (law.amount db (feature_cost_key feature day))
                    (cost_of f to_float text e)
                else law.amount db (feature_cost_key feature day))
        unfolding process publish_cost
        amount-process feature day d e db same =
            let cost : f.F = cost_of f to_float text e in
            let costed : Db = (publish_cost f c text d e cost db).0 in
            ground (
              arith,
              add_costs-published c law (cost_keys f text d e) cost db,
              amount-check_retry_loop c law e feature day costed,
              amount-add_costs c law (cost_keys f text d e) cost db (feature_cost_key feature day),
              gained-cost_keys feature day d e cost (law.amount db (feature_cost_key feature day))
                  same,
            )

        -- While Redis can be reached: after any events, of days written with as many characters, the
        -- counter of a feature and a day has grown by the costs of just the events of that feature and
        -- day, added in their order, whatever the names hold.
        pub amount-process_all :
            (feature day : String) (es : List (String × Event Int Scan)) (db : Db)
            → All (λ (x : String × Event Int Scan). len x.0 ≡ len day) es
            → law.amount (process_all es db) (feature_cost_key feature day)
              ≡ spent feature day es (law.amount db (feature_cost_key feature day))
        unfolding process_all
        amount-process_all feature day [] db h = refl
        amount-process_all feature day ((d, e) ∷ es) db h =
            amount-process_all feature day es (process f c to_float text d e db).db h.1
            ∙ ap (spent feature day es) (amount-process feature day d e db h.0)
