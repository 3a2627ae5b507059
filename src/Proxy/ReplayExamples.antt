-- ===== src/Proxy/ReplayExamples.antt =====
-- The theorems about the cache and the limit of a body at concrete requests.

use ajah.Prelude.{◌≡◌, refl, true, false, [], none, some, ok, arith}
use ajah.Text.{ascii, has_prefix}
use ajah.Float.Scaled.{scaled}
use ajah.Http.{header_get}
use ajah.Redis.Store.{Store, server, server-IsReachable}
use ajah.Fallback.{is_degraded_status_code}
use ajah.Proxy.Providers.{detect_key, first_match, build_target_url, api_key_of, detect_provider}
use ajah.Proxy.Payload.{extract_model}
use ajah.Proxy.Admission.{Setting, trip_reason, cache_hit, read_body, read_limit, max_int64}
use ajah.Proxy.Forwarding.{Answer, forward, call_primary, on_answer, store_answer, primary_degraded}
use ajah.Proxy.Guards.{outcome}
use ajah.Proxy.Wrapping.{with_body, serve_http-unread}
use ajah.Proxy.Replay.{serve_http-replays}
use ajah.Proxy.{serve_http, request_id_of}
use ajah.Proxy.Fixtures.{
  compile, http, json, digest, config, setting, path_of, provider_urls, backup_of, question,
  asked_by, empty,
}

abbrev answer : Answer
answer = record {
  body = ascii "hi";
  status_code = 200;
  model = [];
  used_fallback = false;
  through_cache = true;
}

first_answer :
    (forward http server config digest true json none path_of provider_urls
      (asked_by "sk-a")
      "openai"
      question
      empty).answer
    ≡ ok answer
unfolding forward primary_degraded call_primary on_answer store_answer is_degraded_status_code
    extract_model has_prefix build_target_url
first_answer = refl

abbrev after : Store
after =
    (forward http server config digest true json none path_of provider_urls (asked_by "sk-a")
      "openai" question empty).db

untripped :
    trip_reason scaled compile server json digest setting
      (header_get "X-Session-ID" (asked_by "Bearer sk-b").headers)
      after
    ≡ none
unfolding trip_reason header_get
untripped = refl

known : detect_provider (header_get "Authorization" (asked_by "Bearer sk-b").headers) ≡ ok "openai"
unfolding detect_provider detect_key first_match api_key_of header_get
known = refl

whole : read_body config.max_request_body_bytes question ≡ question
unfolding read_body read_limit
whole = refl

-- The largest limit.
abbrev unlimited : Setting scaled compile
unlimited = record setting { config = record config { max_request_body_bytes = max_int64 } }

serve_http-unread_example :
    outcome scaled compile server json digest unlimited http backup_of path_of provider_urls "r1"
      (with_body (asked_by "sk-a") question)
      empty
    ≡ outcome scaled compile server json digest unlimited http backup_of path_of provider_urls "r1"
        (with_body (asked_by "sk-a") [])
        empty
serve_http-unread_example =
    serve_http-unread scaled compile server json digest unlimited http backup_of path_of
      provider_urls refl "r1" (asked_by "sk-a") question [] empty

-- Another key gets the answer to the first one.
serve_http-replays_example :
    serve_http scaled compile http server json digest setting none path_of provider_urls "r2"
      (asked_by "Bearer sk-b")
      after
    ≡ record {
      db = after;
      contacts = [];
      reply = some (
          cache_hit scaled compile server json digest setting
            (request_id_of "r2" (asked_by "Bearer sk-b"))
            answer.body);
      event = none;
    }
serve_http-replays_example =
    serve_http-replays scaled compile http server json digest setting none path_of provider_urls
      refl refl server-IsReachable "r2" "openai" question question (asked_by "sk-a")
      (asked_by "Bearer sk-b") empty after answer first_answer refl refl refl refl untripped known
      refl whole (omega arith)
