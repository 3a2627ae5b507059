-- ===== src/Proxy/Examples.antt =====
-- The theorems about the proxy handler at concrete requests.
use mathlib.Core.Bool.{true≢false}
use ajah.Prelude.{
  ℕ, ◌≡◌, ◌≢◌, ◌⊎◌, refl, ap, true, false, String, str_eq, [], ◌∷◌, none, some, ok, err,
  if◌then◌else◌, arith,
}
use ajah.Text.{Bytes, ascii, has_prefix}
use ajah.Float.Scaled.{scaled}
use ajah.Http.{Header, header_values}
use ajah.Redis.Store.{server, server-IsReachable}
use ajah.Fallback.{execute, is_enabled, trim_slashes, FallbackResult, is_degraded_status_code}
use ajah.Proxy.Providers.{build_target_url, upstream_headers}
use ajah.Proxy.Forwarding.{forward, primary_degraded, try_backup}
use ajah.Proxy.Guards.{IsAdmissible, outcome, serve_http-IsAdmissible}
use ajah.Proxy.Upstream.{upstream_headers-values}
use ajah.Fallback.Health.{view}
use ajah.Proxy.Accounting.{view-forward, health_after, call_of}
use ajah.Proxy.Healing.{IsHealthy, forward-IsHealthy}
use ajah.Proxy.Fixtures.{
  compile, http, json, digest, config, setting, path_of, provider_urls, manager, backup_of,
  question, asked_by, empty,
}

serve_http-IsAdmissible_example :
    (((outcome scaled compile server json digest setting http backup_of path_of provider_urls "r1"
          (asked_by "sk-a")
          empty).contacts
        ≡ [])
      × ((outcome scaled compile server json digest setting http backup_of path_of provider_urls
            "r1"
            (asked_by "sk-a")
            empty).event
          ≡ none)
      × ((outcome scaled compile server json digest setting http backup_of path_of provider_urls
            "r1"
            (asked_by "sk-a")
            empty).db
          ≡ empty)
      × ((outcome scaled compile server json digest setting http backup_of path_of provider_urls
            "r1"
            (asked_by "sk-a")
            empty).reply
          ≢ none))
    ⊎ ((provider : String) × (body : Bytes) × IsAdmissible scaled compile server json digest setting
          (asked_by "sk-a")
          empty
          provider
          body)
serve_http-IsAdmissible_example =
    serve_http-IsAdmissible scaled compile server json digest setting http backup_of path_of
      provider_urls (omega arith) "r1" (asked_by "sk-a") empty

abbrev sent_header : Header
sent_header = ("Authorization", "Bearer sk-a") ∷ ("X-User-ID", "u") ∷ ("X-Source-Context", "c") ∷ []

not_authorization : ◌≢◌ {A = String} "X-User-ID" "Authorization"
not_authorization e = true≢false (ap (λ s. str_eq s "X-User-ID") e)

upstream_headers-values_example :
    header_values "X-User-ID" (upstream_headers sent_header)
    ≡ (if str_eq "X-Source-Context" "X-User-ID" then [] else header_values "X-User-ID" sent_header)
upstream_headers-values_example = upstream_headers-values "X-User-ID" sent_header not_authorization

built :
    http.new_request "POST"
      (build_target_url path_of (provider_urls "groq") (ascii "/v1/chat"))
      question
      (upstream_headers (asked_by "gsk_1").headers)
    ≡ ok (ascii "https://down/v1/chat")
unfolding build_target_url
built = refl

abbrev backup_answer : FallbackResult
backup_answer = record {
  body = ascii "hi";
  status_code = 200;
  used_model = ascii "mini";
  used_url = ascii "https://b/v1";
}

works : try_backup http backup_of question (ascii "/v1/chat") ≡ some (ok backup_answer)
unfolding try_backup execute is_enabled has_prefix trim_slashes
works = refl

readable :
    (status : ℕ) (e : Unit {0})
    → http.do_request (ascii "https://down/v1/chat") ≢ ok (status, err e)
unfolding has_prefix
readable status e h = ground arith

fine : is_degraded_status_code 200 ≡ false
unfolding is_degraded_status_code
fine = refl

forward-IsHealthy_example : IsHealthy (
    forward http server config digest true json backup_of path_of provider_urls
      (asked_by "gsk_1")
      "groq"
      question
      empty)
forward-IsHealthy_example =
    forward-IsHealthy http server config digest true json backup_of path_of provider_urls
      (asked_by "gsk_1") "groq" question backup_answer works fine refl empty
      (ascii "https://down/v1/chat") built readable

manager-is_enabled : is_enabled manager ≡ true
unfolding is_enabled
manager-is_enabled = refl

view-forward_example :
    view server server-IsReachable manager "groq"
      (forward http server config digest true json backup_of path_of provider_urls
        (asked_by "gsk_1")
        "groq"
        question
        empty).db
    ≡ (if primary_degraded server backup_of "groq" empty
        then view server server-IsReachable manager "groq" empty
        else health_after "groq"
            (call_of false "groq" (http.do_request (ascii "https://down/v1/chat")))
            (view server server-IsReachable manager "groq" empty))
view-forward_example =
    view-forward http server config digest true json manager path_of provider_urls
      server-IsReachable manager-is_enabled refl "groq" (asked_by "gsk_1") "groq" question empty
      (ascii "https://down/v1/chat") built
