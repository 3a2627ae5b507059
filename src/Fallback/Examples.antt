-- ===== src/Fallback/Examples.antt =====
-- The theorems about the fallback manager at concrete runs.
use ajah.Prelude.{◌≡◌, refl, true, List, [], ◌∷◌, some}
use ajah.Text.{ascii}
use ajah.Redis.Store.{Store, absent, server, server-IsReachable}
use ajah.Fallback.{Manager, is_enabled, should_fallback}
use ajah.Fallback.Rewrite.{rewrite_model}
use ajah.Fallback.Health.{
  Call, failed, succeeded, run_health, perform_all, view, should_fallback-perform_all,
}

abbrev manager : Manager
manager = record {
  fallback =
      some (record {
        model = ascii "gpt-4o-mini";
        url = ascii "https://b.example/v1";
        api_key = "key";
      });
  connected = true;
}

abbrev empty : Store
empty k = absent

-- Three failures of one provider, a failure of another, and a success of the first one.
abbrev calls : List Call
calls =
    failed "openai" ∷ failed "openai" ∷ failed "groq" ∷ failed "openai" ∷ succeeded "openai" ∷ []

manager-is_enabled : is_enabled manager ≡ true
unfolding is_enabled
manager-is_enabled = refl

should_fallback-perform_all_example :
    should_fallback server manager "openai"
      (perform_all server server-IsReachable manager calls empty)
    ≡ (run_health "openai" calls
        (view server server-IsReachable manager "openai" empty)).is_degraded
should_fallback-perform_all_example =
    should_fallback-perform_all server server-IsReachable manager manager-is_enabled refl "openai"
      calls empty

-- The model is replaced, and the rest of the body stays.
rewrite_test :
    rewrite_model (ascii "{\"model\": \"gpt-4o\", \"n\": 1}") (ascii "mini")
    ≡ ascii "{\"model\": \"mini\", \"n\": 1}"
unfolding rewrite_model
rewrite_test = refl

-- A user name that reads "model" before the field stands in for it: here the value that follows it
-- is no text, and the body is sent as it is.
rewrite_misses_test :
    rewrite_model (ascii "{\"user\": \"model\", \"n\": 1, \"model\": \"gpt-4o\"}") (ascii "mini")
    ≡ ascii "{\"user\": \"model\", \"n\": 1, \"model\": \"gpt-4o\"}"
unfolding rewrite_model
rewrite_misses_test = refl
