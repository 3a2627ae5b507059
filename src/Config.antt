-- ===== src/Config.antt =====
-- internal/config/config.go. The environment and strconv's parsers are parameters.
mod Examples
pub mod Loading
use ajah.Prelude.{
  ℕ, zero, suc, Bool, true, false, not, ◌&&◌, String, str_eq, Option, none, some, Result, ok, err,
  if◌then◌else◌,
}

-- int and int64
pub data ℤ : Type 0 where
  pos : ℕ → ℤ
  negsuc : ℕ → ℤ

abbrev pub is_positive : ℤ → Bool
is_positive (pos zero) = false
is_positive (pos (suc n)) = true
is_positive (negsuc n) = false

abbrev is_zero : ℤ → Bool
is_zero (pos zero) = true
is_zero (pos (suc n)) = false
is_zero (negsuc n) = false

pub record Config : Type 0 where
  pub port : String
  pub redis_url : String
  pub database_url : String
  pub click_house_url : String
  pub scorer_url : String
  pub log_level : String
  pub max_request_body_bytes : ℤ
  pub async_worker_count : ℤ
  pub provider_timeout_seconds : ℤ
  pub session_timeout : ℤ
  pub webhook_timeout_seconds : ℤ
  pub scorer_timeout_seconds : ℤ
  pub otel_endpoint : String
  pub cache_enabled : Bool
  pub cache_ttl_seconds : ℤ
  pub fallback_model : String
  pub fallback_provider_url : String
  pub fallback_api_key : String
  pub security_block_enabled : Bool
  pub auth_enabled : Bool

-- The variable that does not parse.
pub data LoadError : Type 0 where
  invalid : String → LoadError

pub data Missing : Type 0 where
  port_required redis_url_required database_url_required log_level_required : Missing
  body_bytes_not_positive worker_count_not_positive provider_timeout_not_positive : Missing

abbrev pub and_then {ℓ} :
    {A B : Type ℓ} → Result LoadError A → (A → Result LoadError B) → Result LoadError B
and_then (err e) k = err e
and_then (ok a) k = k a

-- The three checks of numbers at the end of Validate.
unfoldable pub validate_numbers : Config → Result Missing (Unit {0})
validate_numbers c =
    if not (is_positive c.max_request_body_bytes)
    then err body_bytes_not_positive
    else if not (is_positive c.async_worker_count)
    then err worker_count_not_positive
    else if not (is_positive c.provider_timeout_seconds)
    then err provider_timeout_not_positive
    else ok tt

unfoldable pub validate : Config → Result Missing (Unit {0})
validate c =
    if str_eq c.port ""
    then err port_required
    else if str_eq c.redis_url ""
    then err redis_url_required
    else if str_eq c.database_url ""
    then err database_url_required
    else if str_eq c.log_level ""
    then err log_level_required
    else validate_numbers c

module _ (getenv : String → String) (atoi : String → Option ℤ) where
  unfoldable pub env_or_default : String → String → String
  env_or_default key fallback = if not (str_eq (getenv key) "") then getenv key else fallback

  -- A number of the environment that must parse if it is set. ParseInt and Atoi read the same texts.
  unfoldable pub number_of : String → ℕ → Result LoadError ℤ
  number_of key fallback =
      if str_eq (getenv key) ""
      then ok (pos fallback)
      else (elim (atoi (getenv key)) [ some v ↦ ok v | none ↦ err (invalid key) ])

  abbrev ttl_of : Option ℤ → ℤ
  ttl_of none = pos 0
  ttl_of (some v) = if is_positive v then v else pos 0

  -- The time to live of the cache: a value that is no positive number is passed over.
  unfoldable pub cache_ttl : ℤ
  cache_ttl =
      let read : ℤ =
        if str_eq (getenv "CACHE_TTL_SECONDS") ""
        then pos 0
        else ttl_of (atoi (getenv "CACHE_TTL_SECONDS")) in
      if is_zero read then pos 3600 else read

  unfoldable pub config_of : ℤ → ℤ → ℤ → ℤ → ℤ → ℤ → Config
  config_of body_bytes workers provider_timeout session webhook_timeout scorer_timeout = record {
    port = env_or_default "PORT" "8080";
    redis_url = env_or_default "REDIS_URL" "redis://localhost:6379";
    database_url = env_or_default "DATABASE_URL" "postgres://localhost:5432/observatory";
    click_house_url = env_or_default "CLICKHOUSE_URL" "clickhouse://localhost:9000/default";
    scorer_url = env_or_default "SCORER_URL" "http://localhost:8001";
    log_level = env_or_default "LOG_LEVEL" "info";
    max_request_body_bytes = body_bytes;
    async_worker_count = workers;
    provider_timeout_seconds = provider_timeout;
    session_timeout = session;
    webhook_timeout_seconds = webhook_timeout;
    scorer_timeout_seconds = scorer_timeout;
    otel_endpoint = env_or_default "OTEL_EXPORTER_OTLP_ENDPOINT" "";
    cache_enabled = str_eq (getenv "CACHE_ENABLED") "true";
    cache_ttl_seconds = cache_ttl;
    fallback_model = getenv "FALLBACK_MODEL";
    fallback_provider_url = getenv "FALLBACK_PROVIDER_URL";
    fallback_api_key = getenv "FALLBACK_API_KEY";
    security_block_enabled = str_eq (getenv "SECURITY_BLOCK_ENABLED") "true";
    auth_enabled = str_eq (getenv "AUTH_ENABLED") "true";
  }

  unfoldable pub load : Result LoadError Config
  load = and_then (number_of "MAX_REQUEST_BODY_BYTES" 10485760) λ body_bytes.
      and_then (number_of "ASYNC_WORKER_COUNT" 10) λ workers.
        and_then (number_of "PROVIDER_TIMEOUT_SECONDS" 30) λ provider_timeout.
          and_then (number_of "SESSION_TIMEOUT" 300) λ session.
            and_then (number_of "WEBHOOK_TIMEOUT_SECONDS" 5) λ webhook_timeout.
              and_then (number_of "SCORER_TIMEOUT_SECONDS" 30) λ scorer_timeout. ok (
                config_of body_bytes workers provider_timeout session webhook_timeout
                  scorer_timeout)
