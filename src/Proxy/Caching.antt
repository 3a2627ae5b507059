-- ===== src/Proxy/Caching.antt =====
-- What an answer that is cached serves afterwards.
use ajah.Prelude.{
  ℕ, ◌≡◌, refl, subst, sym, inl, inr, Bool, true, false, String, List, [], ◌∷◌, Option, none, some,
  Result, ok, err, if◌then◌else◌, arith, Result-cases, Bool-cases,
}
use ajah.Text.{Bytes}
use ajah.Http.{Http}
use ajah.Redis.{Redis, IsReachable}
use ajah.Fallback.{Manager, is_degraded_status_code, ExecuteError, FallbackResult}
use ajah.Proxy.Providers.{build_target_url, upstream_headers}
use ajah.Proxy.Payload.{Codec, extract_model}
use ajah.Proxy.Admission.{Incoming, Config, cache_key}
use ajah.Proxy.Forwarding.{
  Contact, primary, Answer, Exchange, forward, call_primary, pass_over, on_network_error, on_answer,
  store_answer, try_backup, of_backup, choose_answer, contacts_with, note_failure, note_success,
  primary_degraded,
}

module _ (http : Http) (r : Redis) (config : Config) (digest : Bytes → String) (has_redis : Bool)
    (json : Codec) (manager : Option Manager) (path_of : Bytes → Option Bytes)
    (provider_urls : String → Bytes) where
  open r use {Db}

  -- What is left under the key of an answer.
  abbrev pub kept : String → Bytes → Db → Option (Option Bytes)
  kept provider body db = r.get (cache_key digest provider body) db

  module _ (law : IsReachable r) (provider : String) (body : Bytes) where
    -- What went through the cache with status 200 is left there.
    abbrev IsKept : Exchange Db → Type 0
    IsKept x =
        (a : Answer)
        → x.answer ≡ ok a
        → a.through_cache ≡ true
        → a.status_code ≡ 200
        → kept provider body x.db ≡ some (some a.body)

    IsKept-if : (b : Bool) (x y : Exchange Db) → IsKept x → IsKept y → IsKept (if b then x else y)
    IsKept-if true x y hx hy = hx
    IsKept-if false x y hx hy = hy

    store_answer-IsKept :
        (db : Db) (cs : List Contact) (own : Answer)
        → own.through_cache ≡ false
        → IsKept (
            store_answer http r config digest has_redis json manager path_of provider_urls provider
              body db cs own)
    unfolding store_answer
    store_answer-IsKept db cs own fresh a h through is_200 =
        ground
          (arith, law.get-set (cache_key digest provider body) own.body config.cache_ttl_seconds db)

    choose_answer-fresh :
        (own : Answer) (tried : Option (Result (ExecuteError http.E) FallbackResult))
        → own.through_cache ≡ false
        → (choose_answer http r config digest has_redis json manager path_of provider_urls own
            tried).through_cache
          ≡ false
    unfolding choose_answer of_backup
    choose_answer-fresh own none h = h
    choose_answer-fresh own (some (err e)) h = h
    choose_answer-fresh own (some (ok result)) h = ground arith

    on_answer-IsKept :
        (q : Incoming) (db : Db) (status : ℕ) (answer : Bytes)
        → IsKept (
            on_answer http r config digest has_redis json manager path_of provider_urls q provider
              body db status answer)
    unfolding on_answer
    on_answer-IsKept q db status answer =
        let own : Answer = record {
          body = answer;
          status_code = status;
          model = extract_model json body;
          used_fallback = false;
          through_cache = false;
        } in
        let tried = try_backup http manager body q.uri in
        IsKept-if (is_degraded_status_code status) _ _
          (store_answer-IsKept (note_failure r manager provider db)
            (contacts_with http r config digest has_redis json manager path_of provider_urls tried)
            (choose_answer http r config digest has_redis json manager path_of provider_urls own
              tried)
            (choose_answer-fresh own tried refl))
          (store_answer-IsKept (note_success r manager provider db) (primary ∷ []) own refl)

    on_network_error-IsKept :
        (q : Incoming) (db : Db)
        → IsKept (
            on_network_error http r config digest has_redis json manager path_of provider_urls q
              provider body db)
    unfolding on_network_error of_backup
    on_network_error-IsKept q db a h through is_200 = absurd (ground arith)

    pass_over-IsKept :
        (q : Incoming) (db : Db)
        → IsKept
            (pass_over http r config digest has_redis json manager path_of provider_urls q body db)
    unfolding pass_over of_backup
    pass_over-IsKept q db a h through is_200 = absurd (ground arith)

    call_primary-IsKept :
        (q : Incoming) (db : Db) (request : http.Outgoing)
        → IsKept (
            call_primary http r config digest has_redis json manager path_of provider_urls q
              provider body db request)
    unfolding call_primary
    call_primary-IsKept q db request a h through is_200 =
        elim (Result-cases (http.do_request request)) [
          | inl (e, failed) ↦
              let same : call_primary http r config digest has_redis json manager path_of
                    provider_urls q provider body db request
                  ≡ on_network_error http r config digest has_redis json manager path_of
                      provider_urls q provider body db =
                ground arith in
              subst IsKept (sym same) (on_network_error-IsKept q db) a h through is_200
          | inr ((status, err e), replied) ↦ absurd (ground arith)
          | inr ((status, ok answer), replied) ↦
              let same : call_primary http r config digest has_redis json manager path_of
                    provider_urls q provider body db request
                  ≡ on_answer http r config digest has_redis json manager path_of provider_urls q
                      provider body db status answer =
                ground arith in
              subst IsKept (sym same) (on_answer-IsKept q db status answer) a h through is_200
        ]

    -- While Redis can be reached: an answer with status 200 that goes back as a cache miss is what Redis
    -- holds afterwards under the key made of its provider and its request's body.
    pub forward-kept :
        (q : Incoming) (db : Db) (a : Answer)
        → (forward http r config digest has_redis json manager path_of provider_urls q provider body
            db).answer
          ≡ ok a
        → a.through_cache ≡ true
        → a.status_code ≡ 200
        → kept provider body
            (forward http r config digest has_redis json manager path_of provider_urls q provider
              body db).db
          ≡ some (some a.body)
    unfolding forward
    forward-kept q db a h through is_200 =
        elim (Result-cases (
          http.new_request q.method (build_target_url path_of (provider_urls provider) q.uri) body
            (upstream_headers q.headers))) [
              | inl (e, unbuilt) ↦ absurd (ground arith)
              | inr (request, built) ↦ elim (Bool-cases (primary_degraded r manager provider db)) [
                | inl degraded ↦
                    let same : forward http r config digest has_redis json manager path_of
                          provider_urls q provider body db
                        ≡ pass_over http r config digest has_redis json manager path_of
                            provider_urls q body db =
                      ground arith in
                    subst IsKept (sym same) (pass_over-IsKept q db) a h through is_200
                | inr fine ↦
                    let same : forward http r config digest has_redis json manager path_of
                          provider_urls q provider body db
                        ≡ call_primary http r config digest has_redis json manager path_of
                            provider_urls q provider body db request =
                      ground arith in
                    subst IsKept (sym same) (call_primary-IsKept q db request) a h through is_200
              ]
            ]
