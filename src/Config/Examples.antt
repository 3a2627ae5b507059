-- ===== src/Config/Examples.antt =====
-- The theorem about Load at an environment that sets one number.
use ajah.Prelude.{◌≡◌, refl, true, String, str_eq, Option, none, some, ok, if◌then◌else◌}
use ajah.Config.{
  ℤ, pos, negsuc, is_positive, Config, validate, validate_numbers, load, number_of, config_of,
}
use ajah.Config.Loading.{validate-load}

abbrev getenv : String → String
getenv key = if str_eq key "ASYNC_WORKER_COUNT" then "-1" else ""

abbrev atoi : String → Option ℤ
atoi s = if str_eq s "-1" then some (negsuc 0) else none

abbrev config : Config
config = config_of getenv atoi (pos 10485760) (negsuc 0) (pos 30) (pos 300) (pos 5) (pos 30)

loads : load getenv atoi ≡ ok config
unfolding load number_of
loads = refl

validate-load_example :
    (validate config ≡ validate_numbers config) × (is_positive config.cache_ttl_seconds ≡ true)
validate-load_example = validate-load getenv atoi config loads
