-- ===== src/Fallback.antt =====
-- internal/fallback/manager.go. Redis and the HTTP client are parameters; log lines are left out.
-- ShouldFallback and HealthStatus are read for a Redis client that is not nil.
pub mod Rewrite
pub mod Keys
pub mod Health
pub mod Threshold
mod Examples
use Prim.Native.String.{◌++◌ as str_append}
use ajah.Prelude.{
  ℕ, ◌≡◌, Bool, true, false, not, ◌&&◌, ◌||◌, String, str_eq, List, [], ◌∷◌, ◌++◌, Option, none,
  some, Result, ok, err, leb, ◌==◌, if◌then◌else◌,
}
use ajah.Text.{Bytes, ascii, is_empty}
use ajah.Http.{Http}
use ajah.Redis.{Redis}
use Rewrite.{rewrite_model}
use Keys.{degraded_key, fail_key}

pub record ProviderConfig : Type 0 where
  pub model : Bytes
  pub url : Bytes
  pub api_key : String

-- `connected` is whether the Redis client is not nil.
pub record Manager : Type 0 where
  pub fallback : Option ProviderConfig
  pub connected : Bool

abbrev pub failure_threshold : ℕ
failure_threshold = 3

-- In seconds.
abbrev pub failure_window : ℕ
failure_window = 60

abbrev pub cooldown_duration : ℕ
cooldown_duration = 120

unfoldable pub is_enabled : Manager → Bool
is_enabled m = elim m.fallback [
  | none ↦ false
  | some c ↦ not (is_empty c.url) && not (str_eq c.api_key "")
]

-- 429 and 5xx.
unfoldable pub is_degraded_status_code : ℕ → Bool
is_degraded_status_code code = code == 429 || leb 500 code && leb code 599

-- The three forms of a provider's status.
pub data Status : Type 0 where
  degraded : ℕ → Status
  failing : ℕ → Status
  healthy : Status

module _ (r : Redis) where
  open r use {Db}

  unfoldable pub should_fallback : Manager → String → Db → Bool
  should_fallback m provider db =
      if is_enabled m
      then (elim (r.exists (degraded_key provider) db) [ none ↦ false | some val ↦ val ])
      else false

  -- Marks the provider degraded at the third failure of the count.
  unfoldable pub mark_at : String → Option ℕ → Db → Db
  mark_at provider none db = db
  mark_at provider (some count) db =
      if leb failure_threshold count
      then (r.set (degraded_key provider) (ascii "1") cooldown_duration db).0
      else db

  unfoldable pub record_failure : Manager → String → Db → Db
  unfolding mark_at
  record_failure m provider db =
      if not (is_enabled m) || not m.connected
      then db
      else (let (counted, reply) = r.incr_expire (fail_key provider) failure_window db in
          mark_at provider reply counted)

  unfoldable pub record_success : Manager → String → Db → Db
  record_success m provider db =
      if not (is_enabled m) || not m.connected then db else (r.del (fail_key provider) db).0

  abbrev counted_status : ℕ → Status
  counted_status n = if leb 1 n then failing n else healthy

  -- One round of HealthStatus; an error of EXISTS reads as 0.
  unfoldable pub status_of : String → Db → Status
  status_of provider db = elim (r.exists (degraded_key provider) db) [
    | some true ↦ degraded (r.ttl (degraded_key provider) db)
    | _ ↦ counted_status (r.get_int (fail_key provider) db)
  ]

-- strings.TrimRight(s, "/")
unfoldable pub trim_slashes : Bytes → Bytes
trim_slashes [] = []
trim_slashes (c ∷ s) =
    let rest = trim_slashes s in if c == b'/' && is_empty rest then [] else c ∷ rest

pub record FallbackResult : Type 0 where
  pub body : Bytes
  pub status_code : ℕ
  pub used_model : Bytes
  pub used_url : Bytes

pub data ExecuteError (E : Type 0) : Type 0 where
  not_configured : ExecuteError E
  not_built : E → ExecuteError E
  not_sent : E → ExecuteError E
  not_read : E → ExecuteError E

module _ (http : Http) where
  open http use {E, Outgoing}

  abbrev read_reply : ProviderConfig → ℕ × Result E Bytes → Result (ExecuteError E) FallbackResult
  read_reply c (code, ok body) =
      ok (record { body = body; status_code = code; used_model = c.model; used_url = c.url })
  read_reply c (code, err e) = err (not_read e)

  abbrev send : ProviderConfig → Result E Outgoing → Result (ExecuteError E) FallbackResult
  send c (err e) = err (not_built e)
  send c (ok request) = elim (http.do_request request) [
    | ok reply ↦ read_reply c reply
    | err e ↦ err (not_sent e)
  ]

  unfoldable pub execute : Manager → Bytes → Bytes → Result (ExecuteError E) FallbackResult
  execute m original_body original_path = elim m.fallback [
    | none ↦ err not_configured
    | some c ↦
        if is_enabled m
        then send c (
            http.new_request "POST" (trim_slashes c.url ++ original_path)
              (rewrite_model original_body c.model)
              (("Content-Type", "application/json")
                ∷ ("Authorization", str_append "Bearer " c.api_key)
                ∷ []))
        else err not_configured
  ]
