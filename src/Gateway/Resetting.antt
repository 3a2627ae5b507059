-- ===== src/Gateway/Resetting.antt =====
-- What a reset of a session's circuit breaker gives.
use Prim.Native.String.{◌++◌ as str_append}
use text.Mathlib.TextPositions.{eq_refl}
use ajah.Prelude.{ℕ, ◌+◌, ◌≡◌, ap, ◌∙◌, refl, false, String, str_eq, Option, some, arith}
use ajah.Text.{Bytes}
use ajah.Text.Prefixes.{unlike}
use ajah.Float.{Float64}
use ajah.Redis.{Redis, IsReachable}
use ajah.Redis.Pipeline.{Exec, IsSequential, IsKeyed}
use ajah.Sessions.{meta_key, circuit_key, int32, Limits, Trace, add_trace}
use ajah.Sessions.Breaker.{is_tripped, reaches_limit, add_trace-trips}
use ajah.Gateway.Circuits.{reset_session_circuit}

circuit_key-meta_key : (id : String) → str_eq (circuit_key id) (meta_key id) ≡ false
unfolding circuit_key meta_key
circuit_key-meta_key id =
    unlike "" "a" "s" "jah:circuit:tripped:" "ession:" id (str_append id ":meta") refl refl

module _ (f : Float64) (r : Redis) (exec : Exec f r.Db) (order : IsSequential f r.Db exec)
    (decimal : ℕ → Bytes) (fixed6 : f.F → Bytes) (law : IsReachable r)
    (keyed : IsKeyed f r.Db exec order r.del) (limits_func : Option (String → Limits f)) where
  -- The totals that a session has with one more step.
  abbrev next_steps : String → r.Db → ℕ
  next_steps id db = int32 (order.int_field db (meta_key id) "step_count" + 1)

  abbrev next_cost : String → Trace f → r.Db → f.F
  next_cost id t db = f.add (order.float_field db (meta_key id) "total_cost") t.cost_usd

  -- While Redis can be reached, and a deletion of a key leaves the hashes of the other keys: after a reset,
  -- the next trace that encodes is not refused for what was before, but it trips the session again
  -- exactly if a limit is set for its feature that the totals with it have reached, as they were counted
  -- before the reset.
  pub add_trace-reset_session_circuit :
      (id : String) (now : ℕ) (encoded : Bytes) (t : Trace f) (db : r.Db)
      → t.encoded ≡ some encoded
      → is_tripped f r exec order decimal fixed6 law limits_func
          (add_trace f decimal fixed6 r exec limits_func id now t (reset_session_circuit r id db)).1
        ≡ reaches_limit f r exec order decimal fixed6 law limits_func t
            (next_steps id db)
            (next_cost id t db)
  unfolding reset_session_circuit
  add_trace-reset_session_circuit id now encoded t db encodes =
      let clear : law.holds (r.del (circuit_key id) db).0 (circuit_key id) ≡ false =
        ground
          (arith, law.holds-del (circuit_key id) db (circuit_key id), eq_refl (circuit_key id)) in
      add_trace-trips f r exec order decimal fixed6 law limits_func id now encoded t
        (r.del (circuit_key id) db).0 clear encodes
      ∙ ap
          (λ n.
            reaches_limit f r exec order decimal fixed6 law limits_func t (int32 (n + 1))
              (next_cost id t (r.del (circuit_key id) db).0))
          (keyed.int_field-del (circuit_key id) (meta_key id) "step_count" db
            (circuit_key-meta_key id))
      ∙ ap
          (λ x.
            reaches_limit f r exec order decimal fixed6 law limits_func t (next_steps id db)
              (f.add x t.cost_usd))
          (keyed.float_field-del (circuit_key id) (meta_key id) "total_cost" db
            (circuit_key-meta_key id))
