-- ===== src/Proxy/Forwarding.antt =====
-- ServeHTTP's upstream call, its fallback, and what they leave in Redis.
use ajah.Prelude.{
  ℕ, Bool, true, false, ◌&&◌, String, List, [], ◌∷◌, Option, none, some, Result, ok, err, ◌==◌,
  if◌then◌else◌,
}
use ajah.Text.{Bytes}
use ajah.Http.{Http}
use ajah.Redis.{Redis}
use ajah.Fallback.{
  Manager, is_enabled, is_degraded_status_code, should_fallback, record_failure, record_success,
  ExecuteError, FallbackResult, execute,
}
use ajah.Proxy.Providers.{build_target_url, upstream_headers}
use ajah.Proxy.Payload.{Codec, extract_model}
use ajah.Proxy.Admission.{Incoming, Config, cache_key}

-- The calls that are made: of the provider, and of the fallback provider.
pub data Contact : Type 0 where
  primary backup : Contact

-- An answer to pass on; `through_cache` is whether the header X-Ajah-Cache reads "miss".
pub record Answer : Type 0 where
  pub body : Bytes
  pub status_code : ℕ
  pub model : Bytes
  pub used_fallback : Bool
  pub through_cache : Bool

-- Why there is none: the client is gone, or an error is reported to it with its status.
pub data Refusal : Type 0 where
  client_gone : Refusal
  refused : ℕ → String → Refusal

unfoldable pub of_backup : FallbackResult → Answer
of_backup result = record {
  body = result.body;
  status_code = result.status_code;
  model = result.used_model;
  used_fallback = true;
  through_cache = false;
}

-- The calls that were made, in order, and how the exchange ended.
pub record Exchange (Db : Type 0) : Type 0 where
  pub db : Db
  pub contacts : List Contact
  pub answer : Result Refusal Answer

-- A fallback manager, which may be nil.
module _ (r : Redis) (manager : Option Manager) (provider : String) where
  open r use {Db}

  unfoldable pub note_failure : Db → Db
  note_failure db = elim manager [ none ↦ db | some m ↦ record_failure r m provider db ]

  unfoldable pub note_success : Db → Db
  note_success db = elim manager [ none ↦ db | some m ↦ record_success r m provider db ]

  unfoldable pub primary_degraded : Db → Bool
  primary_degraded db = elim manager [ none ↦ false | some m ↦ should_fallback r m provider db ]

module _ (http : Http) where
  -- The result of Execute, where there is an enabled manager.
  unfoldable pub try_backup :
      Option Manager → Bytes → Bytes → Option (Result (ExecuteError http.E) FallbackResult)
  try_backup none body uri = none
  try_backup (some m) body uri = if is_enabled m then some (execute http m body uri) else none

  module _ (r : Redis) (config : Config) (digest : Bytes → String) (has_redis : Bool) (json : Codec)
      (manager : Option Manager) (path_of : Bytes → Option Bytes)
      (provider_urls : String → Bytes) where
    open r use {Db}

    -- A network error of the provider.
    unfoldable pub on_network_error : Incoming → String → Bytes → Db → Exchange Db
    on_network_error q provider body db =
        if q.cancelled
        then record { db = db; contacts = primary ∷ []; answer = err client_gone }
        else (let noted : Db = note_failure r manager provider db in
            elim (try_backup manager body q.uri) [
              | none ↦ record {
                db = noted;
                contacts = primary ∷ [];
                answer = err (refused 502 "upstream request failed");
              }
              | some (err e) ↦ record {
                db = noted;
                contacts = primary ∷ backup ∷ [];
                answer = err (refused 502 "upstream request failed and fallback unavailable");
              }
              | some (ok result) ↦ record {
                db = noted;
                contacts = primary ∷ backup ∷ [];
                answer = ok (of_backup result);
              }
            ])

    -- The end of the provider's branch: a final status 200 is cached.
    unfoldable pub store_answer : String → Bytes → Db → List Contact → Answer → Exchange Db
    store_answer provider body db contacts answer =
        if config.cache_enabled && has_redis
        then record {
          db =
              if answer.status_code == 200
              then (r.set (cache_key digest provider body) answer.body config.cache_ttl_seconds
                  db).0
              else db;
          contacts = contacts;
          answer = ok (record answer { through_cache = true });
        }
        else record { db = db; contacts = contacts; answer = ok answer }

    -- The fallback's answer to a degraded status stands in for the provider's if its own is no such.
    unfoldable pub choose_answer :
        Answer → Option (Result (ExecuteError http.E) FallbackResult) → Answer
    choose_answer own none = own
    choose_answer own (some (err e)) = own
    choose_answer own (some (ok result)) =
        if is_degraded_status_code result.status_code then own else of_backup result

    unfoldable pub contacts_with :
        Option (Result (ExecuteError http.E) FallbackResult) → List Contact
    contacts_with none = primary ∷ []
    contacts_with (some _) = primary ∷ backup ∷ []

    -- The provider's answer, read in full.
    unfoldable pub on_answer : Incoming → String → Bytes → Db → ℕ → Bytes → Exchange Db
    unfolding contacts_with
    on_answer q provider body db status answer =
        let own : Answer = record {
          body = answer;
          status_code = status;
          model = extract_model json body;
          used_fallback = false;
          through_cache = false;
        } in
        if is_degraded_status_code status
        then (let tried = try_backup manager body q.uri in
            store_answer provider body (note_failure r manager provider db) (contacts_with tried)
              (choose_answer own tried))
        else store_answer provider body (note_success r manager provider db) (primary ∷ []) own

    -- The call of the provider.
    unfoldable pub call_primary : Incoming → String → Bytes → Db → http.Outgoing → Exchange Db
    call_primary q provider body db request = elim (http.do_request request) [
      | err e ↦ on_network_error q provider body db
      | ok (status, err e) ↦ record {
        db = db;
        contacts = primary ∷ [];
        answer = err (refused 502 "failed to read upstream response");
      }
      | ok (status, ok answer) ↦ on_answer q provider body db status answer
    ]

    -- A degraded provider is passed over.
    unfoldable pub pass_over : Incoming → Bytes → Db → Exchange Db
    pass_over q body db = elim (try_backup manager body q.uri) [
      | none ↦ record {
        db = db;
        contacts = [];
        answer = err (refused 502 "primary provider degraded and no fallback configured");
      }
      | some (err e) ↦ record {
        db = db;
        contacts = backup ∷ [];
        answer = err (refused 502 "primary provider degraded and fallback unavailable");
      }
      | some (ok result) ↦ record {
        db = db;
        contacts = backup ∷ [];
        answer = ok (of_backup result);
      }
    ]

    unfoldable pub forward : Incoming → String → Bytes → Db → Exchange Db
    forward q provider body db =
        elim (http.new_request q.method (build_target_url path_of (provider_urls provider) q.uri)
          body (upstream_headers q.headers)) [
            | err e ↦ record {
              db = db;
              contacts = [];
              answer = err (refused 500 "failed to build upstream request");
            }
            | ok request ↦
                if primary_degraded r manager provider db
                then pass_over q body db
                else call_primary q provider body db request
          ]
