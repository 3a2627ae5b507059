-- ===== src/Proxy.antt =====
-- internal/proxy/handler.go. net/http, Redis, encoding/json, SHA-256 and url.Parse are parameters, and so
-- is the detector's Scan, of which Security has the code. Times and log lines are left out.
pub mod Providers
pub mod Payload
pub mod Admission
pub mod Forwarding
pub mod Guards
pub mod Upstream
pub mod Caching
pub mod Replay
pub mod Healing
pub mod Wrapping
pub mod Accounting
mod Fixtures
mod Examples
mod ReplayExamples
use ajah.Prelude.{
  ℕ, Bool, true, false, String, str_eq, List, [], ◌∷◌, ◌++◌, Option, none, some, Result, ok, err,
  if◌then◌else◌,
}
use ajah.Text.{Bytes}
use ajah.Float.{Float64}
use ajah.Http.{Http, Header, header_get}
use ajah.Redis.{Redis}
use ajah.Security.{Compile, ScanResult}
use ajah.Fallback.{Manager}
use Payload.{Codec, extract_tokens, extract_prompt, extract_response}
use Admission.{Incoming, Setting, Reply, Body, raw, http_error, Admitted, admit}
use Forwarding.{Contact, Answer, Refusal, client_gone, refused, Exchange, forward}

-- RequestEvent, less its times; the scan is none where there is no detector.
pub record Event (Int Scan : Type 0) : Type 0 where
  pub request_id : String
  pub user_id : String
  pub session_id : String
  pub feature_name : String
  pub agent_step : String
  pub step_name : String
  pub parent_step_id : String
  pub tool_name : String
  pub source_context : String
  pub provider : String
  pub model : Bytes
  pub input_tokens : Int
  pub output_tokens : Int
  pub status_code : ℕ
  pub prompt : Bytes
  pub response : Bytes
  pub scanned : Option Scan

-- The request's own ID, or the fresh one.
unfoldable pub request_id_of : String → Incoming → String
request_id_of fresh_id q =
    if str_eq (header_get "X-Request-ID" q.headers) ""
    then fresh_id
    else header_get "X-Request-ID" q.headers

module _ (f : Float64) (compile : Compile) (http : Http) (r : Redis) (json : Codec)
    (digest : Bytes → String) (s : Setting f compile) (manager : Option Manager)
    (path_of : Bytes → Option Bytes) (provider_urls : String → Bytes) where
  open r use {Db}

  -- One run of ServeHTTP: what it leaves in Redis, the calls it made, the reply, unless the client is
  -- gone, and the event that it emits.
  pub record Outcome : Type 0 where
    pub db : Db
    pub contacts : List Contact
    pub reply : Option (Reply f compile)
    pub event : Option (Event json.Int (ScanResult f compile))

  unfoldable pub event_of :
      String → Incoming → Admitted f compile → Answer → Event json.Int (ScanResult f compile)
  event_of request_id q a answer = record {
    request_id = request_id;
    user_id = header_get "X-User-ID" q.headers;
    session_id = header_get "X-Session-ID" q.headers;
    feature_name = header_get "X-Feature-Name" q.headers;
    agent_step = header_get "X-Agent-Step" q.headers;
    step_name = header_get "X-Agent-Step" q.headers;
    parent_step_id = header_get "X-Parent-Step-ID" q.headers;
    tool_name = header_get "X-Tool-Name" q.headers;
    source_context = header_get "X-Source-Context" q.headers;
    provider = a.provider;
    model = answer.model;
    input_tokens = (extract_tokens json answer.body).0;
    output_tokens = (extract_tokens json answer.body).1;
    status_code = answer.status_code;
    prompt = extract_prompt json a.body;
    response = extract_response json answer.body;
    scanned = a.scanned;
  }

  unfoldable pub reply_of : String → Answer → Reply f compile
  reply_of request_id answer = record {
    status = answer.status_code;
    headers =
        (if answer.through_cache then ("X-Ajah-Cache", "miss") ∷ [] else [])
        ++ ((if answer.used_fallback then ("X-Ajah-Fallback", "true") ∷ [] else [])
            ++ ("X-Ajah-Request-ID", request_id) ∷ []);
    fallback_model = if answer.used_fallback then some answer.model else none;
    body = raw answer.body;
  }

  -- The end of ServeHTTP: only an answer is passed on with an event.
  unfoldable pub finish : String → Incoming → Admitted f compile → Exchange Db → Outcome
  finish request_id q a x = elim x.answer [
    | ok answer ↦ record {
      db = x.db;
      contacts = x.contacts;
      reply = some (reply_of request_id answer);
      event = some (event_of request_id q a answer);
    }
    | err client_gone ↦ record { db = x.db; contacts = x.contacts; reply = none; event = none }
    | err (refused status message) ↦ record {
      db = x.db;
      contacts = x.contacts;
      reply = some (http_error f compile status message);
      event = none;
    }
  ]

  unfoldable pub serve_http : String → Incoming → Db → Outcome
  serve_http fresh_id q db =
      let request_id : String = request_id_of fresh_id q in
      elim (admit f compile r json digest s request_id q db) [
        | err reply ↦ record { db = db; contacts = []; reply = some reply; event = none }
        | ok a ↦ finish request_id q a (
            forward http r s.config digest s.has_redis json manager path_of provider_urls q
              a.provider a.body db)
      ]
