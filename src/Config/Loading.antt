-- ===== src/Config/Loading.antt =====
-- What a configuration that Load returns satisfies.
use ajah.Prelude.{◌≡◌, refl, true, false, String, str_eq, Option, Result, ok, err, arith, subst}
use ajah.Config.{
  ℤ, is_positive, Config, LoadError, validate, validate_numbers, env_or_default, number_of,
  cache_ttl, config_of, load, and_then,
}

module _ (getenv : String → String) (atoi : String → Option ℤ) where
  -- The texts are set and the cache's time to live is positive.
  record IsFilled (c : Config) : Type 0 where
    checked : validate c ≡ validate_numbers c
    lives : is_positive c.cache_ttl_seconds ≡ true

  env_or_default-set :
      (key fallback : String)
      → str_eq fallback "" ≡ false
      → str_eq (env_or_default getenv atoi key fallback) "" ≡ false
  unfolding env_or_default
  env_or_default-set key fallback h = ground arith

  cache_ttl-positive : is_positive (cache_ttl getenv atoi) ≡ true
  unfolding cache_ttl
  cache_ttl-positive = ground arith

  config_of-IsFilled : (a b c d e g : ℤ) → IsFilled (config_of getenv atoi a b c d e g)
  unfolding config_of validate
  config_of-IsFilled a b c d e g = record {
    checked = ground (
      arith,
      env_or_default-set "PORT" "8080" refl,
      env_or_default-set "REDIS_URL" "redis://localhost:6379" refl,
      env_or_default-set "DATABASE_URL" "postgres://localhost:5432/observatory" refl,
      env_or_default-set "LOG_LEVEL" "info" refl,
    );
    lives = cache_ttl-positive;
  }

  -- An error, or a configuration that is filled.
  abbrev Fills : Result LoadError Config → Type 0
  Fills (err e) = Unit
  Fills (ok c) = IsFilled c

  and_then-Fills :
      {A : Type 0} (x : Result LoadError A) (k : A → Result LoadError Config)
      → ((a : A) → Fills (k a))
      → Fills (and_then x k)
  and_then-Fills (err e) k h = tt
  and_then-Fills (ok a) k h = h a

  load-Fills : Fills (load getenv atoi)
  unfolding load
  load-Fills = and_then-Fills (number_of getenv atoi "MAX_REQUEST_BODY_BYTES" 10485760) _ λ a.
      and_then-Fills (number_of getenv atoi "ASYNC_WORKER_COUNT" 10) _ λ b.
        and_then-Fills (number_of getenv atoi "PROVIDER_TIMEOUT_SECONDS" 30) _ λ c.
          and_then-Fills (number_of getenv atoi "SESSION_TIMEOUT" 300) _ λ d.
            and_then-Fills (number_of getenv atoi "WEBHOOK_TIMEOUT_SECONDS" 5) _ λ e.
              and_then-Fills (number_of getenv atoi "SCORER_TIMEOUT_SECONDS" 30) _
                λ g. config_of-IsFilled a b c d e g

  -- Whatever the environment is: if it loads, Validate finds at most one of the three numbers that it
  -- checks at fault, and the time to live of the cache is positive.
  pub validate-load :
      (c : Config)
      → load getenv atoi ≡ ok c
      → (validate c ≡ validate_numbers c) × (is_positive c.cache_ttl_seconds ≡ true)
  validate-load c h =
      let filled : IsFilled c = subst Fills h load-Fills in (filled.checked, filled.lives)
