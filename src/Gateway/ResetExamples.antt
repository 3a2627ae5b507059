-- ===== src/Gateway/ResetExamples.antt =====
-- The theorem about a reset at a session that was tripped by its step limit.
use ajah.Prelude.{ℕ, ◌+◌, ◌≡◌, refl, String, Option, some}
use ajah.Text.{Bytes, ascii}
use ajah.Float.Scaled.{scaled}
use ajah.Redis.Hashes.{
  Contents, empty, hash_server, hash_server-IsReachable, perform_all, perform_all-IsSequential,
  hash_server-IsKeyed,
}
use ajah.Sessions.{meta_key, int32, Limits, Trace, add_trace}
use ajah.Sessions.Breaker.{is_tripped, reaches_limit}
use ajah.Gateway.Circuits.{reset_session_circuit}
use ajah.Gateway.Resetting.{add_trace-reset_session_circuit}

abbrev decimal : ℕ → Bytes
decimal n = ascii "n"

abbrev fixed6 : ℕ → Bytes
fixed6 x = ascii "x"

-- One step at most.
abbrev limits : Option (String → Limits scaled)
limits = some (λ feature. record { max_steps_per_session = 1; max_cost_per_session = 0 })

abbrev step : Trace scaled
step = record {
  timestamp = 5;
  feature_name = "chat";
  user_id = "u";
  cost_usd = 2;
  input_tokens = 3;
  output_tokens = 4;
  encoded = some (ascii "{}");
}

abbrev tripped : Contents
tripped = (add_trace scaled decimal fixed6 hash_server perform_all limits "s" 9 step empty).0

add_trace-reset_session_circuit_example :
    is_tripped scaled hash_server perform_all perform_all-IsSequential decimal fixed6
      hash_server-IsReachable limits
      (add_trace scaled decimal fixed6 hash_server perform_all limits "s" 10 step
        (reset_session_circuit hash_server "s" tripped)).1
    ≡ reaches_limit scaled hash_server perform_all perform_all-IsSequential decimal fixed6
        hash_server-IsReachable limits step
        (int32 (perform_all-IsSequential.int_field tripped (meta_key "s") "step_count" + 1))
        (perform_all-IsSequential.float_field tripped (meta_key "s") "total_cost" + 2)
add_trace-reset_session_circuit_example =
    add_trace-reset_session_circuit scaled hash_server perform_all perform_all-IsSequential decimal
      fixed6 hash_server-IsReachable hash_server-IsKeyed limits "s" 10 (ascii "{}") step tripped
      refl
