-- ===== src/Sessions/Examples.antt =====
-- The theorems about the sessions at concrete runs: a session of two steps, a step
-- that repeats one, and the end of a session.
use ajah.Prelude.{
  arith, true, false, none, str_eq, Bool, ok, ◌⊎◌, if◌then◌else◌, List, [], ◌∷◌, ℕ, ◌+◌, ◌≡◌, refl,
  String, Option, some, err, map,
}
use ajah.Text.{Bytes, ascii}
use ajah.Float.Scaled.{scaled}
use ajah.Redis.Hashes.{
  holds-empty, empty, hash_server, hash_server-IsReachable, perform_all, perform_all-IsSequential,
}
use ajah.Sessions.{
  Limits, Trace, Tripped, circuit_breaker, add_trace, int32, meta_key, after_pipeline, check_limits,
  trip_for, limit_reason, commands, steps_of, cost_of, circuit_key, traces_key, step_reason,
}
use ajah.Sessions.Closing.{
  Buffers, Writer, Parsers, SessionMeta, Closing, CloseError, get_turns, write_to, meta_of,
}
use ajah.Sessions.Keeping.{closing, close_session_cases}
use ajah.Sessions.Breaker.{is_tripped, reaches_limit, add_trace-trips}
use ajah.Float.Scaled.{scaled-IsOrdered}
use ajah.Sessions.DeadSteps.{Previous, check_dead_step, check_dead_step-repeated}
use ajah.Sessions.Tripping.{add_trace-tripped}

abbrev decimal : ℕ → Bytes
decimal n = ascii "1"

abbrev fixed6 : ℕ → Bytes
fixed6 x = ascii "0.000000"

-- One step at most.
abbrev limits : Option (String → Limits scaled)
limits = some (λ feature. record { max_steps_per_session = 1; max_cost_per_session = 0 })

abbrev step : Trace scaled
step = record {
  timestamp = 5;
  feature_name = "chat";
  user_id = "u";
  cost_usd = 2;
  input_tokens = 3;
  output_tokens = 4;
  encoded = some (ascii "{}");
}

add_trace-trips_example :
    is_tripped scaled hash_server perform_all perform_all-IsSequential decimal fixed6
      hash_server-IsReachable limits
      (add_trace scaled decimal fixed6 hash_server perform_all limits "s" 9 step empty).1
    ≡ reaches_limit scaled hash_server perform_all perform_all-IsSequential decimal fixed6
        hash_server-IsReachable limits step
        (int32 (perform_all-IsSequential.int_field empty (meta_key "s") "step_count" + 1))
        (perform_all-IsSequential.float_field empty (meta_key "s") "total_cost" + 2)
add_trace-trips_example =
    add_trace-trips scaled hash_server perform_all perform_all-IsSequential decimal fixed6
      hash_server-IsReachable limits "s" 9 (ascii "{}") step empty (holds-empty (circuit_key "s"))
      refl

abbrev trip : Tripped scaled
trip = record { reason = step_reason scaled decimal fixed6 1 1; steps = 1; cost = 2 }

trips :
    (add_trace scaled decimal fixed6 hash_server perform_all limits "s" 9 step empty).1
    ≡ err (circuit_breaker trip)
unfolding add_trace after_pipeline check_limits trip_for limit_reason commands steps_of cost_of
    meta_key traces_key
trips = refl

add_trace-tripped_example :
    add_trace scaled decimal fixed6 hash_server perform_all limits "s" 10 step
      (add_trace scaled decimal fixed6 hash_server perform_all limits "s" 9 step empty).0
    ≡ (
      (add_trace scaled decimal fixed6 hash_server perform_all limits "s" 9 step empty).0,
      err (circuit_breaker (record { reason = trip.reason; steps = 0; cost = 0 })),
    )
add_trace-tripped_example =
    add_trace-tripped scaled decimal fixed6 hash_server perform_all limits hash_server-IsReachable
      "s" 9 10 (ascii "{}") step step empty trip (holds-empty (circuit_key "s")) refl trips

-- A buffered trace is its response.
abbrev read_trace : Bytes → Option Previous
read_trace raw = some (record { response_text = raw; step_name = "plan" })

abbrev runes_of : Bytes → List ℕ
runes_of s = s

abbrev response : Bytes
response = ascii "I will look at it again."

check_dead_step-repeated_example :
    check_dead_step scaled runes_of read_trace
      (some (ascii "first" ∷ response ∷ response ∷ []))
      response
    ≡ record { is_dead_step = true; similarity_score = 1000; prev_step_name = "plan" }
check_dead_step-repeated_example =
    check_dead_step-repeated scaled runes_of read_trace scaled-IsOrdered (ascii "first" ∷ [])
      response response response (record { response_text = response; step_name = "plan" }) refl refl
      (omega arith)

-- A buffer with two traces, which are one byte each, their quality.
abbrev buffers : Buffers Bool
buffers = record {
  hgetall = λ k db. some (λ name. if str_eq name "step_count" then some "2" else none);
  lrange = λ k db. some (if db then (5 ∷ []) ∷ (7 ∷ []) ∷ [] else []);
  del = λ k j db. (false, some tt);
}

abbrev parsers : Parsers scaled
parsers = record { parse_int = λ s. some 2; int_value = λ s. 2; float_value = λ s. 0 }

abbrev quality_of : Bytes → Option ℕ
quality_of [] = none
quality_of (q ∷ _) = some q

abbrev clickhouse : Option (Writer scaled)
clickhouse = some (record { create_session_table = true; write_session = λ m. true })

abbrev here : Closing scaled quality_of (λ q. q) Bool
here = closing scaled quality_of (λ q. q) buffers parsers clickhouse "s" true

abbrev summary : (String → Option String) → List ℕ → SessionMeta scaled
summary = meta_of scaled quality_of (λ q. q) parsers "s"

close_session_cases_example :
    ((e : CloseError) × (here.result ≡ err e) × (here.db ≡ true) × (here.written ≡ none))
    ⊎ ((meta : String → Option String) × (raws : List Bytes) × (ts : List ℕ) × (buffers.hgetall
            (meta_key "s")
            true
          ≡ some meta)
        × (buffers.lrange (traces_key "s") true ≡ some raws)
        × (map quality_of raws ≡ map some ts)
        × (get_turns scaled quality_of (λ q. q) buffers parsers clickhouse "s" true ≡ some ts)
        × (write_to scaled quality_of (λ q. q) clickhouse (summary meta ts) ≡ ok here.written)
        × (here.db ≡ (buffers.del (meta_key "s") (traces_key "s") true).0)
        × (here.result ≡ ok (summary meta ts, ts)))
close_session_cases_example =
    close_session_cases scaled quality_of (λ q. q) buffers parsers clickhouse "s" true
