-- ===== src/Proxy/Guards.antt =====
-- What a request has passed when it is sent on.
use ajah.Prelude.{
  ℕ, suc, ◌≤◌, ◌<◌, ◌≡◌, refl, sym, ap, ◌∙◌, ◌⊎◌, inl, inr, Bool, true, false, String, str_eq, [],
  Option, none, some, ok, ltb, arith, length, length-take, take_all, subst, ◌≢◌, Result-cases,
  Bool-cases,
}
use ajah.Text.{Bytes}
use ajah.Float.{Float64}
use ajah.Http.{Http, header_get}
use ajah.Redis.{Redis}
use ajah.Security.{Compile}
use ajah.Fallback.{Manager}
use ajah.Proxy.Providers.{detect_provider}
use ajah.Proxy.Payload.{Codec, extract_prompt}
use ajah.Proxy.Admission.{
  Incoming, Setting, Admitted, admit, check_provider, check_body, check_cache, scan_prompt,
  cached_answer, trip_reason, max_int64, read_body, read_limit,
}
use ajah.Proxy.{serve_http, request_id_of, Outcome}

module _ (f : Float64) (compile : Compile) (r : Redis) (json : Codec) (digest : Bytes → String)
    (s : Setting f compile) where
  open r use {Db}

  -- Whether the detector, if there is one, wants the prompt blocked.
  abbrev pub is_blocked : Bytes → Bool
  is_blocked body = elim s.detector [
    | none ↦ false
    | some scan ↦ (scan (extract_prompt json body)).should_block
  ]

  -- What is true of a request that the guards let through with a provider and a body.
  pub record IsAdmissible (q : Incoming) (db : Db) (provider : String) (body : Bytes) : Type 0 where
    pub is_post : str_eq q.method "POST" ≡ true
    pub untripped :
        trip_reason f compile r json digest s (header_get "X-Session-ID" q.headers) db ≡ none
    pub known : detect_provider (header_get "Authorization" q.headers) ≡ ok provider
    pub read : q.body ≡ some body
    pub small : length body ≤ s.config.max_request_body_bytes
    pub uncached : cached_answer f compile r json digest s provider body db ≡ none
    pub unblocked : is_blocked body ≡ false

  scan_prompt-ok :
      (provider : String) (body : Bytes) (a : Admitted f compile)
      → scan_prompt f compile r json digest s provider body ≡ ok a
      → (a.provider ≡ provider) × (a.body ≡ body) × (is_blocked body ≡ false)
  unfolding scan_prompt
  scan_prompt-ok provider body a h = ground arith

  check_cache-ok :
      (id provider : String) (body : Bytes) (db : Db) (a : Admitted f compile)
      → check_cache f compile r json digest s id provider body db ≡ ok a
      → (cached_answer f compile r json digest s provider body db ≡ none)
        × (scan_prompt f compile r json digest s provider body ≡ ok a)
  unfolding check_cache
  check_cache-ok id provider body db a h = ground arith

  check_body-ok :
      s.config.max_request_body_bytes < max_int64
      → (id provider : String) (b : Option Bytes) (db : Db) (a : Admitted f compile)
      → check_body f compile r json digest s id provider b db ≡ ok a
      → (all : Bytes) × (b ≡ some all)
        × (length all ≤ s.config.max_request_body_bytes)
        × (check_cache f compile r json digest s id provider all db ≡ ok a)
  unfolding check_body read_body read_limit
  check_body-ok below id provider none db a h = absurd (ground arith)
  check_body-ok below id provider (some all) db a h =
      let limit : ℕ = s.config.max_request_body_bytes in
      elim (Bool-cases (ltb limit (length (read_body limit all)))) [
        | inl over ↦ absurd (ground arith)
        | inr within ↦
            let small : length all ≤ limit = ground (arith, length-take (suc limit) all) in
            (all, refl, small, ground (arith, take_all (suc limit) all (omega arith)))
      ]

  check_provider-ok :
      (id : String) (q : Incoming) (db : Db) (a : Admitted f compile)
      → check_provider f compile r json digest s id q db ≡ ok a
      → (provider : String) × (detect_provider (header_get "Authorization" q.headers) ≡ ok provider)
        × (check_body f compile r json digest s id provider q.body db ≡ ok a)
  unfolding check_provider
  check_provider-ok id q db a h =
      elim (Result-cases (detect_provider (header_get "Authorization" q.headers))) [
        | inl (e, is_err) ↦ absurd (ground arith)
        | inr (provider, is_ok) ↦ (provider, is_ok, ground arith)
      ]

  admit-ok :
      (id : String) (q : Incoming) (db : Db) (a : Admitted f compile)
      → admit f compile r json digest s id q db ≡ ok a
      → (str_eq q.method "POST" ≡ true)
        × (trip_reason f compile r json digest s (header_get "X-Session-ID" q.headers) db ≡ none)
        × (check_provider f compile r json digest s id q db ≡ ok a)
  unfolding admit
  admit-ok id q db a h = ground arith

  pub admit-IsAdmissible :
      s.config.max_request_body_bytes < max_int64
      → (id : String) (q : Incoming) (db : Db) (a : Admitted f compile)
      → admit f compile r json digest s id q db ≡ ok a
      → IsAdmissible q db a.provider a.body
  admit-IsAdmissible below id q db a h =
      let (post, untripped, provider_step) = admit-ok id q db a h in
      let (provider, known, body_step) = check_provider-ok id q db a provider_step in
      let (all, read, small, cache_step) = check_body-ok below id provider q.body db a body_step in
      let (uncached, scan_step) = check_cache-ok id provider all db a cache_step in
      let (same_provider, same_body, unblocked) = scan_prompt-ok provider all a scan_step in
      record {
        is_post = post;
        untripped = untripped;
        known = known ∙ ap ok (sym same_provider);
        read = read ∙ ap some (sym same_body);
        small = subst (λ b. length b ≤ s.config.max_request_body_bytes) (sym same_body) small;
        uncached = cc;
        unblocked = cc;
      }

  module _ (http : Http) (manager : Option Manager) (path_of : Bytes → Option Bytes)
      (provider_urls : String → Bytes) where
    abbrev pub outcome :
        String
        → Incoming
        → Db
        → Outcome f compile http r json digest s manager path_of provider_urls
    outcome fresh_id q db =
        serve_http f compile http r json digest s manager path_of provider_urls fresh_id q db

    -- Where the limit of a body is below the largest int64, every request either is turned away with a
    -- reply, without a call, an event or a change in Redis, or is a POST request of a session that is
    -- not tripped, with a key of a known provider and a body that is read in full and within the limit,
    -- without a cached answer, and not to be blocked.
    pub serve_http-IsAdmissible :
        s.config.max_request_body_bytes < max_int64
        → (fresh_id : String) (q : Incoming) (db : Db)
        → (((outcome fresh_id q db).contacts ≡ [])
            × ((outcome fresh_id q db).event ≡ none)
            × ((outcome fresh_id q db).db ≡ db)
            × ((outcome fresh_id q db).reply ≢ none))
          ⊎ ((provider : String) × (body : Bytes) × IsAdmissible q db provider body)
    unfolding serve_http
    serve_http-IsAdmissible below fresh_id q db =
        elim (Result-cases (admit f compile r json digest s (request_id_of fresh_id q) q db)) [
          | inl (reply, rejected) ↦ inl (ground arith, ground arith, ground arith, ground arith)
          | inr (a, admitted) ↦ inr (
            a.provider,
            a.body,
            admit-IsAdmissible below (request_id_of fresh_id q) q db a admitted,
          )
        ]
