-- ===== src/Sessions/Breaker.antt =====
-- When the circuit breaker trips, and what it does to the session afterwards.
use Prim.Native.String.{◌++◌ as str_append}
use text.Mathlib.TextLemmas.{append_cancel_left}
use mathlib.Core.Bool.{true≢false}
use ajah.Prelude.{
  ℕ, ◌+◌, ◌≡◌, ◌≢◌, ap, ◌∙◌, Bool, true, false, ◌&&◌, ◌||◌, not, String, str_eq, eq_iff, List, [],
  ◌∷◌, Option, none, some, Result, ok, err, ltb, arith,
}
use ajah.Text.{Bytes}
use ajah.Float.{Float64}
use ajah.Redis.{Redis, IsReachable}
use ajah.Redis.Pipeline.{
  Command, rpush, hsetnx, hset_seen, hincrbyfloat, hincrby, Answer, int_reply, float_reply, Exec,
  touches, IsSequential,
}
use ajah.Sessions.{
  meta_key, traces_key, circuit_key, int32, Limits, Trace, AddError, circuit_breaker,
  not_marshalled, not_executed, int32_reaches, limit_reason, commands, cost_of, steps_of, trip_for,
  check_limits, after_pipeline, add_trace,
}

traces_key-unlike_meta_key : (id : String) → str_eq (traces_key id) (meta_key id) ≡ false
unfolding traces_key meta_key
traces_key-unlike_meta_key id =
    let suffixes : ◌≢◌ {A = String} ":traces" ":meta" =
      λ h. true≢false (ap (λ s. str_eq s ":traces") h) in
    ground (
      arith,
      eq_iff (traces_key id) (meta_key id),
      (λ (h : traces_key id ≡ meta_key id). suffixes (
          append_cancel_left id ":traces" ":meta"
            (append_cancel_left "session:" (str_append id ":traces") (str_append id ":meta") h))),
    )

module _ (f : Float64) (r : Redis) (exec : Exec f r.Db) (order : IsSequential f r.Db exec) where
  open r use {Db}

  answers : List (Command f) → Db → List (Answer f)
  answers [] db = []
  answers (c ∷ cs) db = (order.run c db).1 ∷ answers cs (order.run c db).0

  exec-answers : (cs : List (Command f)) (db : Db) → (exec cs db).1 ≡ some (answers cs db)
  unfolding answers
  exec-answers [] db = ap (λ (x : Db × Option (List (Answer f))). x.1) (order.exec-nil db)
  exec-answers (c ∷ cs) db =
      ap (λ (x : Db × Option (List (Answer f))). x.1)
        (order.exec-cons c cs db (answers cs (order.run c db).0)
          (exec-answers cs (order.run c db).0))

  -- The stages of the pipeline up to the two increments that are read.
  stage_3 : String → ℕ → Bytes → Trace f → Db → Db
  stage_3 id now encoded t db =
      let db1 : Db = (order.run (rpush (traces_key id) encoded) db).0 in
      let db2 : Db = (order.run (hsetnx (meta_key id) "start_time" t.timestamp) db1).0 in
      (order.run (hset_seen (meta_key id) now t.feature_name t.user_id) db2).0

  int_field-stage_3 :
      (id : String) (now : ℕ) (encoded : Bytes) (t : Trace f) (db : Db)
      → order.int_field (stage_3 id now encoded t db) (meta_key id) "step_count"
        ≡ order.int_field db (meta_key id) "step_count"
  unfolding stage_3 touches
  int_field-stage_3 id now encoded t db =
      let k : String = meta_key id in
      let db1 : Db = (order.run (rpush (traces_key id) encoded) db).0 in
      let db2 : Db = (order.run (hsetnx k "start_time" t.timestamp) db1).0 in
      order.int_field-run (hset_seen k now t.feature_name t.user_id) k "step_count" db2
        (ground arith)
      ∙ order.int_field-run (hsetnx k "start_time" t.timestamp) k "step_count" db1 (ground arith)
      ∙ order.int_field-run (rpush (traces_key id) encoded) k "step_count" db
          (traces_key-unlike_meta_key id)

  float_field-stage_3 :
      (id : String) (now : ℕ) (encoded : Bytes) (t : Trace f) (db : Db)
      → order.float_field (stage_3 id now encoded t db) (meta_key id) "total_cost"
        ≡ order.float_field db (meta_key id) "total_cost"
  unfolding stage_3 touches
  float_field-stage_3 id now encoded t db =
      let k : String = meta_key id in
      let db1 : Db = (order.run (rpush (traces_key id) encoded) db).0 in
      let db2 : Db = (order.run (hsetnx k "start_time" t.timestamp) db1).0 in
      order.float_field-run (hset_seen k now t.feature_name t.user_id) k "total_cost" db2
        (ground arith)
      ∙ order.float_field-run (hsetnx k "start_time" t.timestamp) k "total_cost" db1 (ground arith)
      ∙ order.float_field-run (rpush (traces_key id) encoded) k "total_cost" db
          (traces_key-unlike_meta_key id)

  steps_of-commands :
      (id : String) (now : ℕ) (encoded : Bytes) (t : Trace f) (db : Db)
      → steps_of f (answers (commands f id now encoded t) db)
        ≡ int32 (order.int_field db (meta_key id) "step_count" + 1)
  unfolding steps_of answers commands touches stage_3
  steps_of-commands id now encoded t db =
      let k : String = meta_key id in
      let db3 : Db = stage_3 id now encoded t db in
      let db4 : Db = (order.run (hincrbyfloat k "total_cost" t.cost_usd) db3).0 in
      let db5 : Db =
        (order.run (hincrby k "total_tokens" (t.input_tokens + t.output_tokens)) db4).0 in
      ap (λ a. elim a [ int_reply n ↦ int32 n | _ ↦ 0 ]) (order.run-hincrby k "step_count" 1 db5)
      ∙ ap (λ n. int32 (n + 1))
          (order.int_field-run (hincrby k "total_tokens" (t.input_tokens + t.output_tokens)) k
              "step_count" db4 (ground arith)
            ∙ order.int_field-run (hincrbyfloat k "total_cost" t.cost_usd) k "step_count" db3
                (ground arith)
            ∙ int_field-stage_3 id now encoded t db)

  cost_of-commands :
      (id : String) (now : ℕ) (encoded : Bytes) (t : Trace f) (db : Db)
      → cost_of f (answers (commands f id now encoded t) db)
        ≡ f.add (order.float_field db (meta_key id) "total_cost") t.cost_usd
  unfolding cost_of answers commands stage_3
  cost_of-commands id now encoded t db =
      ap (λ a. elim a [ float_reply x ↦ x | _ ↦ f.lit 0 0 ])
        (order.run-hincrbyfloat (meta_key id) "total_cost" t.cost_usd (stage_3 id now encoded t db))
      ∙ ap (λ x. f.add x t.cost_usd) (float_field-stage_3 id now encoded t db)

  module _ (decimal : ℕ → Bytes) (fixed6 : f.F → Bytes) (law : IsReachable r)
      (limits_func : Option (String → Limits f)) where
    -- What AddTrace should answer where the totals are these.
    abbrev verdict : Trace f → ℕ → f.F → Result (AddError f) (Unit {0})
    verdict t steps cost = elim (trip_for f decimal fixed6 r exec limits_func t steps cost) [
      | none ↦ ok tt
      | some reason ↦ err (circuit_breaker (record { reason = reason; steps = steps; cost = cost }))
    ]

    after_pipeline-verdict :
        (id : String) (t : Trace f) (db : Db) (results : List (Answer f))
        → (after_pipeline f decimal fixed6 r exec limits_func id t (db, some results)).1
          ≡ verdict t (steps_of f results) (cost_of f results)
    unfolding after_pipeline check_limits
    after_pipeline-verdict id t db results = ground arith

    add_trace-verdict :
        (id : String) (now : ℕ) (encoded : Bytes) (t : Trace f) (db : Db)
        → law.holds db (circuit_key id) ≡ false
        → t.encoded ≡ some encoded
        → (add_trace f decimal fixed6 r exec limits_func id now t db).1
          ≡ verdict t
              (int32 (order.int_field db (meta_key id) "step_count" + 1))
              (f.add (order.float_field db (meta_key id) "total_cost") t.cost_usd)
    unfolding add_trace
    add_trace-verdict id now encoded t db untripped encodes =
        let answered : List (Answer f) = answers (commands f id now encoded t) db in
        let executed : (exec (commands f id now encoded t) db).1 ≡ some answered =
          exec-answers (commands f id now encoded t) db in
        ground (
          arith,
          law.exists_lem (circuit_key id) db,
          after_pipeline-verdict id t (exec (commands f id now encoded t) db).0 answered,
          executed,
          steps_of-commands id now encoded t db,
          cost_of-commands id now encoded t db,
        )

    abbrev pub is_tripped : Result (AddError f) (Unit {0}) → Bool
    is_tripped (ok _) = false
    is_tripped (err (circuit_breaker trip)) = true
    is_tripped (err not_marshalled) = false
    is_tripped (err not_executed) = false

    -- Whether these totals reach a limit that is set for the trace's feature.
    abbrev pub reaches_limit : Trace f → ℕ → f.F → Bool
    reaches_limit t steps cost = elim limits_func [
      | none ↦ false
      | some limits ↦
          not (str_eq t.feature_name "")
          && (ltb 0 (limits t.feature_name).max_steps_per_session
                && int32_reaches steps (limits t.feature_name).max_steps_per_session
              || f.ltb (f.lit 0 0) (limits t.feature_name).max_cost_per_session
                && f.leb (limits t.feature_name).max_cost_per_session cost)
    ]

    verdict-trips :
        (t : Trace f) (steps : ℕ) (cost : f.F)
        → is_tripped (verdict t steps cost) ≡ reaches_limit t steps cost
    unfolding trip_for limit_reason
    verdict-trips t steps cost = ground arith

    -- While Redis can be reached, a trace of a session that is not tripped and that encodes trips the
    -- session exactly if a limit is set for its feature that the session's steps with this one, as an
    -- int32, or its cost with this one have reached.
    pub add_trace-trips :
        (id : String) (now : ℕ) (encoded : Bytes) (t : Trace f) (db : Db)
        → law.holds db (circuit_key id) ≡ false
        → t.encoded ≡ some encoded
        → is_tripped (add_trace f decimal fixed6 r exec limits_func id now t db).1
          ≡ reaches_limit t
              (int32 (order.int_field db (meta_key id) "step_count" + 1))
              (f.add (order.float_field db (meta_key id) "total_cost") t.cost_usd)
    add_trace-trips id now encoded t db untripped encodes =
        ap is_tripped (add_trace-verdict id now encoded t db untripped encodes)
        ∙ verdict-trips t (int32 (order.int_field db (meta_key id) "step_count" + 1))
            (f.add (order.float_field db (meta_key id) "total_cost") t.cost_usd)
