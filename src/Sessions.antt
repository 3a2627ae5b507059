-- ===== src/Sessions.antt =====
-- internal/sessions/session.go: AddTrace and its circuit breaker; CheckDeadStep is in DeadSteps,
-- CloseSession in Closing, the reaper in Reaping. Redis, encoding/json and the formats of numbers are
-- parameters; the clock is an argument, log lines are left out.
pub mod Breaker
pub mod Tripping
pub mod DeadSteps
pub mod Closing
pub mod Keeping
pub mod Reaping
mod Examples
use Prim.Native.String.{◌++◌ as str_append}
use ajah.Prelude.{
  ℕ, ◌+◌, ◌%◌, Bool, true, false, ◌&&◌, not, String, str_eq, List, [], ◌∷◌, ◌++◌, Option, none,
  some, Result, ok, err, ltb, leb, if◌then◌else◌, get_elem?,
}
use ajah.Text.{Bytes, ascii}
use ajah.Float.{Float64}
use ajah.Redis.{Redis}
use ajah.Redis.Pipeline.{
  Command, rpush, hsetnx, hset_seen, hincrbyfloat, hincrby, expire, Answer, done, int_reply,
  float_reply, Exec,
}

unfoldable pub meta_key : String → String
meta_key id = str_append "session:" (str_append id ":meta")

unfoldable pub traces_key : String → String
traces_key id = str_append "session:" (str_append id ":traces")

unfoldable pub circuit_key : String → String
circuit_key id = str_append "ajah:circuit:tripped:" id

-- In seconds.
abbrev session_ttl : ℕ
session_ttl = 86400

-- An int32 by its 32 bits: the conversion from int64, and the comparison of one, read as an int, with
-- a number that is not negative.
abbrev pub int32 : ℕ → ℕ
int32 n = n % 0x100000000

abbrev pub int32_reaches : ℕ → ℕ → Bool
int32_reaches n max = ltb n 0x80000000 && leb max n

module _ (f : Float64) where
  pub record Limits : Type 0 where
    pub max_steps_per_session : ℕ
    pub max_cost_per_session : f.F

  -- The fields of a trace that AddTrace reads; `encoded` is the result of json.Marshal. The
  -- numbers of tokens are taken not to be negative, with a sum that an int holds.
  pub record Trace : Type 0 where
    pub timestamp : ℕ
    pub feature_name : String
    pub user_id : String
    pub cost_usd : f.F
    pub input_tokens : ℕ
    pub output_tokens : ℕ
    pub encoded : Option Bytes

  pub record Tripped : Type 0 where
    pub reason : Bytes
    pub steps : ℕ
    pub cost : f.F

  pub data AddError : Type 0 where
    circuit_breaker : Tripped → AddError
    not_marshalled : AddError
    not_executed : AddError

  unfoldable pub commands : String → ℕ → Bytes → Trace → List (Command f)
  commands id now encoded t =
      rpush (traces_key id) encoded
      ∷ hsetnx (meta_key id) "start_time" t.timestamp
      ∷ hset_seen (meta_key id) now t.feature_name t.user_id
      ∷ hincrbyfloat (meta_key id) "total_cost" t.cost_usd
      ∷ hincrby (meta_key id) "total_tokens" (t.input_tokens + t.output_tokens)
      ∷ hincrby (meta_key id) "step_count" 1
      ∷ expire (traces_key id) session_ttl
      ∷ expire (meta_key id) session_ttl
      ∷ []

  -- results[3] and results[5], zero where they are no such answers.
  unfoldable pub cost_of : List (Answer f) → f.F
  cost_of results = elim (get_elem? results 3) [ some (float_reply x) ↦ x | _ ↦ f.lit 0 0 ]

  unfoldable pub steps_of : List (Answer f) → ℕ
  steps_of results = elim (get_elem? results 5) [ some (int_reply n) ↦ int32 n | _ ↦ 0 ]

  module _ (decimal : ℕ → Bytes) (fixed6 : f.F → Bytes) where
    abbrev pub step_reason : ℕ → ℕ → Bytes
    step_reason steps max =
        ascii "step limit exceeded ("
        ++ (decimal steps ++ (ascii "/" ++ (decimal max ++ ascii " steps)")))

    abbrev cost_reason : f.F → f.F → Bytes
    cost_reason cost max =
        ascii "cost limit exceeded ($" ++ (fixed6 cost ++ (ascii "/$" ++ (fixed6 max ++ ascii ")")))

    -- The reason to trip, if there is one; the cost's replaces the steps'.
    unfoldable pub limit_reason : Limits → ℕ → f.F → Option Bytes
    limit_reason l steps cost =
        if f.ltb (f.lit 0 0) l.max_cost_per_session && f.leb l.max_cost_per_session cost
        then some (cost_reason cost l.max_cost_per_session)
        else if ltb 0 l.max_steps_per_session && int32_reaches steps l.max_steps_per_session
        then some (step_reason steps l.max_steps_per_session)
        else none

    module _ (r : Redis) (exec : Exec f r.Db) (limits_func : Option (String → Limits)) where
      open r use {Db}

      -- The circuit breaker's limits of a trace's feature, if there are any.
      unfoldable pub trip_for : Trace → ℕ → f.F → Option Bytes
      trip_for t steps cost = elim limits_func [
        | none ↦ none
        | some limits ↦
            if str_eq t.feature_name ""
            then none
            else limit_reason (limits t.feature_name) steps cost
      ]

      unfoldable pub check_limits : String → Trace → ℕ → f.F → Db → Db × Result AddError (Unit {0})
      check_limits id t steps cost db = elim (trip_for t steps cost) [
        | none ↦ (db, ok tt)
        | some reason ↦ (
          (r.set (circuit_key id) reason session_ttl db).0,
          err (circuit_breaker (record { reason = reason; steps = steps; cost = cost })),
        )
      ]

      unfoldable pub after_pipeline :
          String → Trace → Db × Option (List (Answer f)) → Db × Result AddError (Unit {0})
      after_pipeline id t (db, none) = (db, err not_executed)
      after_pipeline id t (db, some results) =
          check_limits id t (steps_of results) (cost_of results) db

      -- A session that is tripped already; an error of GET reads as no reason.
      abbrev pub earlier_trip : String → Db → Tripped
      earlier_trip id db = record {
        reason = elim (r.get (circuit_key id) db) [ some (some reason) ↦ reason | _ ↦ [] ];
        steps = 0;
        cost = f.lit 0 0;
      }

      abbrev pub append_trace : String → ℕ → Trace → Db → Db × Result AddError (Unit {0})
      append_trace id now t db = elim t.encoded [
        | none ↦ (db, err not_marshalled)
        | some encoded ↦ after_pipeline id t (exec (commands id now encoded t) db)
      ]

      unfoldable pub add_trace : String → ℕ → Trace → Db → Db × Result AddError (Unit {0})
      add_trace id now t db = elim (r.exists (circuit_key id) db) [
        | some true ↦ (db, err (circuit_breaker (earlier_trip id db)))
        | _ ↦ append_trace id now t db
      ]
