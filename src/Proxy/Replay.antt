-- ===== src/Proxy/Replay.antt =====
-- That a cached answer is served again, and to whom.
use ajah.Prelude.{
  ◌≤◌, ◌≡◌, sym, ap, ◌∙◌, true, String, str_eq, [], Option, none, some, ok, err, arith, length,
}
use ajah.Text.{Bytes}
use ajah.Float.{Float64}
use ajah.Http.{Http, header_get}
use ajah.Redis.{Redis, IsReachable}
use ajah.Security.{Compile}
use ajah.Fallback.{Manager}
use ajah.Proxy.Providers.{detect_provider}
use ajah.Proxy.Payload.{Codec}
use ajah.Proxy.Admission.{
  Incoming, Setting, admit, check_provider, check_body, read_body, check_cache, cached_answer,
  trip_reason, cache_key, cache_hit,
}
use ajah.Proxy.Forwarding.{Answer, forward}
use ajah.Proxy.Caching.{kept, forward-kept}
use ajah.Proxy.{serve_http, request_id_of}

module _ (f : Float64) (compile : Compile) (http : Http) (r : Redis) (json : Codec)
    (digest : Bytes → String) (s : Setting f compile) (manager : Option Manager)
    (path_of : Bytes → Option Bytes) (provider_urls : String → Bytes) where
  open r use {Db}

  module _ (caching : s.config.cache_enabled ≡ true) (connected : s.has_redis ≡ true) where
    check_cache-hit :
        (id provider : String) (body answer : Bytes) (db : Db)
        → r.get (cache_key digest provider body) db ≡ some (some answer)
        → check_cache f compile r json digest s id provider body db
          ≡ err (cache_hit f compile r json digest s id answer)
    unfolding check_cache cached_answer
    check_cache-hit id provider body answer db h = ground arith

    check_body-hit :
        (id provider : String) (sent body answer : Bytes) (db : Db)
        → r.get (cache_key digest provider body) db ≡ some (some answer)
        → read_body s.config.max_request_body_bytes sent ≡ body
        → length body ≤ s.config.max_request_body_bytes
        → check_body f compile r json digest s id provider (some sent) db
          ≡ err (cache_hit f compile r json digest s id answer)
    unfolding check_body
    check_body-hit id provider sent body answer db h same small =
        ground (arith, check_cache-hit id provider body answer db h)

    admit-hit :
        (id provider : String) (sent body answer : Bytes) (q : Incoming) (db : Db)
        → r.get (cache_key digest provider body) db ≡ some (some answer)
        → str_eq q.method "POST" ≡ true
        → trip_reason f compile r json digest s (header_get "X-Session-ID" q.headers) db ≡ none
        → detect_provider (header_get "Authorization" q.headers) ≡ ok provider
        → q.body ≡ some sent
        → read_body s.config.max_request_body_bytes sent ≡ body
        → length body ≤ s.config.max_request_body_bytes
        → admit f compile r json digest s id q db
          ≡ err (cache_hit f compile r json digest s id answer)
    unfolding admit check_provider
    admit-hit id provider sent body answer q db h post untripped known read same small =
        ground (arith, check_body-hit id provider sent body answer db h same small)

    -- While Redis can be reached and with the cache on: once an answer with status 200 has gone back as
    -- a cache miss, a POST request from which the same body is read, within the limit, with any key of
    -- the same provider, whose session is not tripped, gets the same body with status 200 from Redis as
    -- it then stands; no provider is called, so that nobody checks the key, no scan is made, and there
    -- is no event.
    pub serve_http-replays :
        IsReachable r
        → (fresh_id provider : String) (sent body : Bytes) (first again : Incoming) (db after : Db)
          (a : Answer)
        → (forward http r s.config digest s.has_redis json manager path_of provider_urls first
            provider body db).answer
          ≡ ok a
        → (forward http r s.config digest s.has_redis json manager path_of provider_urls first
            provider body db).db
          ≡ after
        → a.through_cache ≡ true
        → a.status_code ≡ 200
        → str_eq again.method "POST" ≡ true
        → trip_reason f compile r json digest s (header_get "X-Session-ID" again.headers) after
          ≡ none
        → detect_provider (header_get "Authorization" again.headers) ≡ ok provider
        → again.body ≡ some sent
        → read_body s.config.max_request_body_bytes sent ≡ body
        → length body ≤ s.config.max_request_body_bytes
        → serve_http f compile http r json digest s manager path_of provider_urls fresh_id again
            after
          ≡ record {
            db = after;
            contacts = [];
            reply =
                some (cache_hit f compile r json digest s (request_id_of fresh_id again) a.body);
            event = none;
          }
    unfolding serve_http
    serve_http-replays law fresh_id provider sent body first again db after a h left through is_200
          post untripped known read same small =
        let stored : r.get (cache_key digest provider body) after ≡ some (some a.body) =
          ap
            (kept http r s.config digest s.has_redis json manager path_of provider_urls provider
              body)
            (sym left)
          ∙ forward-kept http r s.config digest s.has_redis json manager path_of provider_urls law
              provider body first db a h through is_200 in
        ground (
          arith,
          admit-hit (request_id_of fresh_id again) provider sent body a.body again after stored post
              untripped known read same small,
        )
