-- ===== src/Proxy/Healing.antt =====
-- What the fallback provider promises to the client.
use ajah.Prelude.{
  ℕ, ◌≡◌, sym, subst, ◌≢◌, inl, inr, Bool, true, false, ◌&&◌, String, List, [], ◌∷◌, Option, some,
  ok, err, arith, Result-cases, Bool-cases,
}
use ajah.Text.{Bytes}
use ajah.Http.{Http}
use ajah.Redis.{Redis}
use ajah.Fallback.{Manager, is_degraded_status_code, FallbackResult}
use ajah.Proxy.Providers.{build_target_url, upstream_headers}
use ajah.Proxy.Payload.{Codec, extract_model}
use ajah.Proxy.Admission.{Incoming, Config}
use ajah.Proxy.Forwarding.{
  Contact, primary, Answer, Exchange, forward, call_primary, pass_over, on_network_error, on_answer,
  store_answer, try_backup, of_backup, choose_answer, contacts_with, note_failure, note_success,
  primary_degraded,
}

-- There is an answer, and its status is neither 429 nor 5xx.
pub data IsHealthy {Db : Type 0} : Exchange Db → Type 0 where
  healthy :
      {x : Exchange Db} (a : Answer)
      → x.answer ≡ ok a
      → is_degraded_status_code a.status_code ≡ false
      → IsHealthy x

module _ (http : Http) (r : Redis) (config : Config) (digest : Bytes → String) (has_redis : Bool)
    (json : Codec) (manager : Option Manager) (path_of : Bytes → Option Bytes)
    (provider_urls : String → Bytes) where
  open r use {Db}

  store_answer-IsHealthy :
      (provider : String) (body : Bytes) (db : Db) (cs : List Contact) (own : Answer)
      → is_degraded_status_code own.status_code ≡ false
      → IsHealthy (
          store_answer http r config digest has_redis json manager path_of provider_urls provider
            body db cs own)
  unfolding store_answer
  store_answer-IsHealthy provider body db cs own fine =
      elim (Bool-cases (config.cache_enabled && has_redis)) [
        | inl cached ↦ healthy (record own { through_cache = true }) (ground arith) fine
        | inr plain ↦ healthy own (ground arith) fine
      ]

  module _ (q : Incoming) (provider : String) (body : Bytes) (result : FallbackResult)
      (works : try_backup http manager body q.uri ≡ some (ok result))
      (fine : is_degraded_status_code result.status_code ≡ false)
      (present : q.cancelled ≡ false) where
    pass_over-IsHealthy :
        (db : Db)
        → IsHealthy
            (pass_over http r config digest has_redis json manager path_of provider_urls q body db)
    unfolding pass_over of_backup
    pass_over-IsHealthy db = healthy (of_backup result) (ground arith) fine

    on_network_error-IsHealthy :
        (db : Db)
        → IsHealthy (
            on_network_error http r config digest has_redis json manager path_of provider_urls q
              provider body db)
    unfolding on_network_error of_backup
    on_network_error-IsHealthy db = healthy (of_backup result) (ground arith) fine

    on_answer-IsHealthy :
        (db : Db) (status : ℕ) (answer : Bytes)
        → IsHealthy (
            on_answer http r config digest has_redis json manager path_of provider_urls q provider
              body db status answer)
    unfolding on_answer choose_answer of_backup
    on_answer-IsHealthy db status answer =
        let own : Answer = record {
          body = answer;
          status_code = status;
          model = extract_model json body;
          used_fallback = false;
          through_cache = false;
        } in
        elim (Bool-cases (is_degraded_status_code status)) [
          | inl degraded ↦
              let same : on_answer http r config digest has_redis json manager path_of provider_urls
                    q provider body db status answer
                  ≡ store_answer http r config digest has_redis json manager path_of provider_urls
                      provider body (note_failure r manager provider db)
                      (contacts_with http r config digest has_redis json manager path_of
                        provider_urls (try_backup http manager body q.uri))
                      (of_backup result) =
                ground arith in
              subst IsHealthy (sym same) (
                store_answer-IsHealthy provider body (note_failure r manager provider db)
                  (contacts_with http r config digest has_redis json manager path_of provider_urls
                    (try_backup http manager body q.uri))
                  (of_backup result) fine)
          | inr own_fine ↦
              let same : on_answer http r config digest has_redis json manager path_of provider_urls
                    q provider body db status answer
                  ≡ store_answer http r config digest has_redis json manager path_of provider_urls
                      provider body (note_success r manager provider db) (primary ∷ []) own =
                ground arith in
              subst IsHealthy (sym same) (
                store_answer-IsHealthy provider body (note_success r manager provider db)
                  (primary ∷ []) own own_fine)
        ]

    call_primary-IsHealthy :
        (db : Db) (request : http.Outgoing)
        → ((status : ℕ) (e : http.E) → http.do_request request ≢ ok (status, err e))
        → IsHealthy (
            call_primary http r config digest has_redis json manager path_of provider_urls q
              provider body db request)
    unfolding call_primary
    call_primary-IsHealthy db request readable = elim (Result-cases (http.do_request request)) [
      | inl (e, failed) ↦
          let same : call_primary http r config digest has_redis json manager path_of provider_urls
                q provider body db request
              ≡ on_network_error http r config digest has_redis json manager path_of provider_urls q
                  provider body db =
            ground arith in
          subst IsHealthy (sym same) (on_network_error-IsHealthy db)
      | inr ((status, err e), replied) ↦ absurd (readable status e replied)
      | inr ((status, ok answer), replied) ↦
          let same : call_primary http r config digest has_redis json manager path_of provider_urls
                q provider body db request
              ≡ on_answer http r config digest has_redis json manager path_of provider_urls q
                  provider body db status answer =
            ground arith in
          subst IsHealthy (sym same) (on_answer-IsHealthy db status answer)
    ]

    -- If the fallback provider is configured and answers with a status that is neither 429 nor 5xx, the
    -- client stays, the request can be built, and the body of an answer of the provider can be read:
    -- whatever the provider does, be it cooling down or not, there is an answer for the client, and its
    -- status is neither 429 nor 5xx.
    pub forward-IsHealthy :
        (db : Db) (request : http.Outgoing)
        → http.new_request q.method
            (build_target_url path_of (provider_urls provider) q.uri)
            body
            (upstream_headers q.headers)
          ≡ ok request
        → ((status : ℕ) (e : http.E) → http.do_request request ≢ ok (status, err e))
        → IsHealthy (
            forward http r config digest has_redis json manager path_of provider_urls q provider
              body db)
    unfolding forward
    forward-IsHealthy db request built readable =
        elim (Bool-cases (primary_degraded r manager provider db)) [
          | inl degraded ↦
              let same : forward http r config digest has_redis json manager path_of provider_urls q
                    provider body db
                  ≡ pass_over http r config digest has_redis json manager path_of provider_urls q
                      body db =
                ground arith in
              subst IsHealthy (sym same) (pass_over-IsHealthy db)
          | inr working ↦
              let same : forward http r config digest has_redis json manager path_of provider_urls q
                    provider body db
                  ≡ call_primary http r config digest has_redis json manager path_of provider_urls q
                      provider body db request =
                ground arith in
              subst IsHealthy (sym same) (call_primary-IsHealthy db request readable)
        ]
