-- ===== src/Gateway/Limits.antt =====
-- rateLimitMiddleware of cmd/gateway/handlers.go. `minute` is the text of the current minute, `second` the
-- seconds in it. A refusal carries the limit and the seconds to its end.
use ajah.Prelude.{
  ℕ, ◌-◌, Bool, true, false, not, String, str_eq, Option, none, some, ltb, ◌==◌, if◌then◌else◌,
}
use ajah.Float.{Float64}
use ajah.Text.Prefixes.{joined}
use ajah.Redis.Counters.{Counters}
use ajah.Config.{ℤ, pos, negsuc, is_positive}
use ajah.Db.Settings.{Caches, rate_limit_rpm_for}

pub data Verdict : Type 0 where
  passed : Verdict
  too_many : ℤ → ℕ → Verdict

abbrev pub passes : Verdict → Bool
passes passed = true
passes (too_many limit reset) = false

unfoldable pub limit_key : String → String → String
limit_key feature minute = joined "ratelimit:" ":" feature minute

abbrev pub is_above : ℕ → ℤ → Bool
is_above count (pos limit) = ltb limit count
is_above count (negsuc limit) = true

-- The window lasts 70 seconds from its first count.
abbrev pub limit_window : ℕ
limit_window = 70

module _ (f : Float64) {Db : Type 0} (c : Counters f Db) where
  -- What follows INCR: an error lets the request pass.
  unfoldable pub after_tick : ℤ → String → ℕ → Db × Option ℕ → Db × Verdict
  after_tick limit key second (db, none) = (db, passed)
  after_tick limit key second (db, some count) = (
    (if count == 1 then (c.expire key limit_window db).0 else db),
    (if is_above count limit then too_many limit (60 - second) else passed),
  )

  unfoldable pub limit_rate : Caches f → String → String → ℕ → Db → Db × Verdict
  limit_rate caches feature minute second db =
      if str_eq feature ""
      then (db, passed)
      else if not (is_positive (rate_limit_rpm_for f caches feature))
      then (db, passed)
      else after_tick (rate_limit_rpm_for f caches feature) (limit_key feature minute) second
          (c.incr (limit_key feature minute) db)
