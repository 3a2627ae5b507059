-- ===== src/Proxy/Admission.antt =====
-- ServeHTTP up to the security scan: what turns a request away, and the cache.
use Prim.Native.String.{◌++◌ as str_append}
use ajah.Prelude.{
  ℕ, suc, Bool, ◌&&◌, not, String, str_eq, [], ◌∷◌, ◌++◌, Option, none, some, Result, ok, err, ltb,
  if◌then◌else◌, take, length,
}
use ajah.Text.{Bytes, ascii, is_empty}
use ajah.Float.{Float64}
use ajah.Http.{Header, header_get}
use ajah.Redis.{Redis}
use ajah.Security.{Compile, ScanResult, Verdict, clean, suspicious, blocked}
use ajah.Proxy.Providers.{azure_not_configured, unrecognized, detect_provider}
use ajah.Proxy.Payload.{Codec, extract_prompt}

-- The largest int64. The limit of a body is an int64 that is not negative.
abbrev pub max_int64 : ℕ
max_int64 = 0x7fff_ffff_ffff_ffff

-- `limit + 1` as an int64: it wraps around to the smallest one, and io.LimitReader reads nothing where it
-- is not positive.
unfoldable pub read_limit : ℕ → ℕ
read_limit limit = if ltb limit max_int64 then suc limit else 0

-- io.ReadAll of io.LimitReader with one byte more than the limit.
unfoldable pub read_body : ℕ → Bytes → Bytes
unfolding read_limit
read_body limit sent = take (read_limit limit) sent

-- The client's request; `body` is none if it fails to be read, and `cancelled` is whether the client
-- is gone when the provider's call fails.
pub record Incoming : Type 0 where
  pub method : String
  pub headers : Header
  pub uri : Bytes
  pub body : Option Bytes
  pub cancelled : Bool

pub record Config : Type 0 where
  pub max_request_body_bytes : ℕ
  pub cache_enabled : Bool
  pub cache_ttl_seconds : ℕ

unfoldable pub circuit_key : String → String
circuit_key session = str_append "ajah:circuit:tripped:" session

-- `digest` is the hexadecimal text of a SHA-256 sum.
unfoldable pub cache_key : (Bytes → String) → String → Bytes → String
cache_key digest provider body =
    str_append "cache:" (digest (ascii provider ++ (ascii ":" ++ body)))

abbrev verdict_name : Verdict → String
verdict_name clean = "clean"
verdict_name suspicious = "suspicious"
verdict_name blocked = "blocked"

module _ (f : Float64) (compile : Compile) where
  -- The replies' bodies: http.Error's, the three JSON objects, and bytes that are passed on.
  pub data Body : Type 0 where
    plain : String → Body
    tripped_json : Bytes → String → Body
    unknown_provider_json : Body
    blocked_json : ScanResult f compile → Body
    raw : Bytes → Body

  -- `fallback_model` is the header X-Ajah-Fallback-Model.
  pub record Reply : Type 0 where
    pub status : ℕ
    pub headers : Header
    pub fallback_model : Option Bytes
    pub body : Body

  abbrev pub http_error : ℕ → String → Reply
  http_error status message = record {
    status = status;
    headers = [];
    fallback_model = none;
    body = plain message;
  }

  abbrev json_reply : ℕ → Header → Body → Reply
  json_reply status headers body = record {
    status = status;
    headers = ("Content-Type", "application/json") ∷ headers;
    fallback_model = none;
    body = body;
  }

  -- What goes on from the guards: the provider, the body and the scan, if there is a detector.
  pub record Admitted : Type 0 where
    pub provider : String
    pub body : Bytes
    pub scanned : Option (ScanResult f compile)

  -- The detector's Scan, if there is a detector, and whether the Redis client is not nil.
  pub record Setting : Type 0 where
    pub config : Config
    pub detector : Option (Bytes → ScanResult f compile)
    pub has_redis : Bool

  module _ (r : Redis) (json : Codec) (digest : Bytes → String) (s : Setting) where
    open r use {Db}

    -- The reason that the session was tripped for, if it was and can be read.
    unfoldable pub trip_reason : String → Db → Option Bytes
    trip_reason session db =
        if not (str_eq session "") && s.has_redis
        then (elim (r.get (circuit_key session) db) [
          | some (some reason) ↦ if is_empty reason then none else some reason
          | some none ↦ none
          | none ↦ none
        ])
        else none

    unfoldable pub cached_answer : String → Bytes → Db → Option Bytes
    cached_answer provider body db =
        if s.config.cache_enabled && s.has_redis
        then (elim (r.get (cache_key digest provider body) db) [
          | some (some answer) ↦ some answer
          | some none ↦ none
          | none ↦ none
        ])
        else none

    abbrev pub cache_hit : String → Bytes → Reply
    cache_hit request_id answer = record {
      status = 200;
      headers = ("X-Ajah-Cache", "hit") ∷ ("X-Ajah-Request-ID", request_id) ∷ [];
      fallback_model = none;
      body = raw answer;
    }

    unfoldable pub scan_prompt : String → Bytes → Result Reply Admitted
    scan_prompt provider body = elim s.detector [
      | none ↦ ok (record { provider = provider; body = body; scanned = none })
      | some scan ↦
          let result : ScanResult f compile = scan (extract_prompt json body) in
          if result.should_block
          then err (
              json_reply 400 (("X-Ajah-Security-Verdict", verdict_name result.verdict) ∷ [])
                (blocked_json result))
          else ok (record { provider = provider; body = body; scanned = some result })
    ]

    unfoldable pub check_cache : String → String → Bytes → Db → Result Reply Admitted
    check_cache request_id provider body db = elim (cached_answer provider body db) [
      | some answer ↦ err (cache_hit request_id answer)
      | none ↦ scan_prompt provider body
    ]

    -- The body as it is read, and the test of its size.
    unfoldable pub check_body : String → String → Option Bytes → Db → Result Reply Admitted
    check_body request_id provider none db = err (http_error 500 "failed to read request body")
    check_body request_id provider (some sent) db =
        let body : Bytes = read_body s.config.max_request_body_bytes sent in
        if ltb s.config.max_request_body_bytes (length body)
        then err (http_error 413 "request body too large")
        else check_cache request_id provider body db

    unfoldable pub check_provider : String → Incoming → Db → Result Reply Admitted
    check_provider request_id q db = elim (detect_provider (header_get "Authorization" q.headers)) [
      | ok provider ↦ check_body request_id provider q.body db
      | err azure_not_configured ↦ err (
          http_error 400
            "Azure OpenAI requires endpoint configuration. Set AZURE_OPENAI_ENDPOINT in your environment.")
      | err unrecognized ↦ err (json_reply 400 [] unknown_provider_json)
    ]

    unfoldable pub admit : String → Incoming → Db → Result Reply Admitted
    admit request_id q db =
        if not (str_eq q.method "POST")
        then err (http_error 405 "method not allowed")
        else (elim (trip_reason (header_get "X-Session-ID" q.headers) db) [
          | some reason ↦ err (
              json_reply 429 (("X-Ajah-Circuit-Breaker", "tripped") ∷ [])
                (tripped_json reason (header_get "X-Session-ID" q.headers)))
          | none ↦ check_provider request_id q db
        ])
