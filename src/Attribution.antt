-- ===== src/Attribution.antt =====
-- internal/attribution/engine.go. Redis is a parameter, as are the conversion of a token count to a float
-- and of a model's bytes to a text; `day` is the event's date in UTC. Log lines are left out, but for
-- the warning of a retry loop, which is a result.
pub mod Keys
pub mod Spending
pub mod Retries
mod Examples
use ajah.Prelude.{
  ℕ, Bool, true, false, ◌||◌, String, str_eq, List, [], ◌∷◌, Option, none, some, Result, ok, err,
  ltb, ◌==◌, if◌then◌else◌,
}
use ajah.Text.{Bytes}
use ajah.Float.{Float64}
use ajah.Redis.Counters.{Counters}
use ajah.Proxy.{Event}
use Keys.{user_cost_key, feature_cost_key, model_cost_key, retry_key}

abbrev pub retry_loop_threshold : ℕ
retry_loop_threshold = 5

-- In seconds.
abbrev pub retry_window : ℕ
retry_window = 60

abbrev pub cost_key_ttl : ℕ
cost_key_ttl = 7776000

module _ (f : Float64) where
  pub record ModelPrice : Type 0 where
    pub input_per_token : f.F
    pub output_per_token : f.F

  pub record CostRecord (Int : Type 0) : Type 0 where
    pub request_id : String
    pub user_id : String
    pub feature_name : String
    pub agent_step : String
    pub model : Bytes
    pub provider : String
    pub input_tokens : Int
    pub output_tokens : Int
    pub cost_usd : f.F

  abbrev price : ℕ → ℕ → ℕ → ModelPrice
  price input output digits = record {
    input_per_token = f.lit input digits;
    output_per_token = f.lit output digits;
  }

  -- Prices per token, in units of the sixth and the eighth decimal.
  unfoldable pub pricing_table : List (String × ModelPrice)
  pricing_table =
      ("gpt-4o", price 5 15 6)
      ∷ ("gpt-4-turbo", price 10 30 6)
      ∷ ("claude-3-5-sonnet", price 3 15 6)
      ∷ ("claude-3-opus", price 15 75 6)
      ∷ ("gemini-1.5-pro", price 125 500 8)
      ∷ []

  abbrev pub default_price : ModelPrice
  default_price = price 10 30 6

  unfoldable pub find_price : List (String × ModelPrice) → String → Option ModelPrice
  find_price [] model = none
  find_price ((name, p) ∷ rest) model =
      let found = find_price rest model in if str_eq name model then some p else found

  unfoldable pub lookup_price : String → ModelPrice
  unfolding find_price pricing_table
  lookup_price model = elim (find_price pricing_table model) [ some p ↦ p | none ↦ default_price ]

  -- Process: the record, whether the costs were published, and whether a retry loop is reported.
  pub record Processed (Int Db : Type 0) : Type 0 where
    pub db : Db
    pub cost_record : CostRecord Int
    pub published : Bool
    pub retry_loop : Bool

  module _ {Db : Type 0} (c : Counters f Db) where
    -- The loop over the keys: an error of INCRBYFLOAT ends it, one of EXPIRE does not.
    unfoldable pub add_costs : List String → f.F → Db → Db × Bool
    add_costs [] cost db = (db, true)
    add_costs (key ∷ keys) cost db =
        let (added, reply) = c.incr_by_float key cost db in
        let rest = add_costs keys cost (c.expire key cost_key_ttl added).0 in
        elim reply [ some total ↦ rest | none ↦ (added, false) ]

    -- What follows INCR: the window starts at the first count, and a count above the threshold warns.
    unfoldable pub after_count : String → Db × Option ℕ → Db × Bool
    after_count key (db, none) = (db, false)
    after_count key (db, some count) = (
      (if count == 1 then (c.expire key retry_window db).0 else db),
      ltb retry_loop_threshold count,
    )

  module _ {Int Scan : Type 0} where
    unfoldable pub record_of : Event Int Scan → f.F → CostRecord Int
    record_of event cost = record {
      request_id = event.request_id;
      user_id = event.user_id;
      feature_name = event.feature_name;
      agent_step = event.agent_step;
      model = event.model;
      provider = event.provider;
      input_tokens = event.input_tokens;
      output_tokens = event.output_tokens;
      cost_usd = cost;
    }

    unfoldable pub cost_of : (Int → f.F) → (Bytes → String) → Event Int Scan → f.F
    cost_of to_float text event =
        let p : ModelPrice = lookup_price (text event.model) in
        f.add (f.mul (to_float event.input_tokens) p.input_per_token)
          (f.mul (to_float event.output_tokens) p.output_per_token)

    -- The three keys of an event, in order.
    unfoldable pub cost_keys : (Bytes → String) → String → Event Int Scan → List String
    cost_keys text day event =
        user_cost_key event.user_id day
        ∷ feature_cost_key event.feature_name day
        ∷ model_cost_key (text event.model) day
        ∷ []

    module _ {Db : Type 0} (c : Counters f Db) where
      unfoldable pub publish_cost :
          (Bytes → String) → String → Event Int Scan → f.F → Db → Db × Bool
      publish_cost text day event cost db = add_costs c (cost_keys text day event) cost db

      unfoldable pub check_retry_loop : Event Int Scan → Db → Db × Bool
      check_retry_loop event db =
          if str_eq event.user_id "" || str_eq event.feature_name "" || str_eq event.agent_step ""
          then (db, false)
          else (let key : String = retry_key event.user_id event.feature_name event.agent_step in
              after_count c key (c.incr key db))

      unfoldable pub process :
          (Int → f.F) → (Bytes → String) → String → Event Int Scan → Db → Processed Int Db
      process to_float text day event db =
          let cost : f.F = cost_of to_float text event in
          let (costed, published) = publish_cost text day event cost db in
          let (checked, warned) = check_retry_loop event costed in
          if published
          then record {
            db = checked;
            cost_record = record_of event cost;
            published = true;
            retry_loop = warned;
          }
          else record {
            db = costed;
            cost_record = record_of event cost;
            published = false;
            retry_loop = false;
          }
