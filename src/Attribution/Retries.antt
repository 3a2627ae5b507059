-- ===== src/Attribution/Retries.antt =====
-- How often a repeated step is reported as a retry loop.
use text.Mathlib.TextPositions.{eq_refl}
use ajah.Prelude.{ℕ, zero, suc, ◌+◌, ◌-◌, ◌≡◌, ◌≢◌, String, eq_iff, ltb, if◌then◌else◌, arith}
use ajah.Float.{Float64}
use ajah.Redis.Counters.{Counters, IsCounting}
use ajah.Proxy.{Event}
use ajah.Attribution.{check_retry_loop, after_count, retry_window}
use ajah.Attribution.Keys.{retry_key}

module _ (f : Float64) {Int Scan Db : Type 0} (c : Counters f Db) (e : Event Int Scan) where
  abbrev key : String
  key = retry_key e.user_id e.feature_name e.agent_step

  -- The warnings of so many checks of the same step, one after the other.
  unfoldable pub warnings : ℕ → Db → ℕ
  warnings zero db = 0
  warnings (suc n) db =
      (if (check_retry_loop f c e db).1 then 1 else 0) + warnings n (check_retry_loop f c e db).0

  module _ (law : IsCounting f Db c) (user : e.user_id ≢ "") (feature : e.feature_name ≢ "")
      (step : e.agent_step ≢ "") where
    check_retry_loop_lem :
        (db : Db)
        → ((check_retry_loop f c e db).1 ≡ ltb 5 (suc (law.count db key)))
          × (law.count (check_retry_loop f c e db).0 key ≡ suc (law.count db key))
    unfolding check_retry_loop after_count
    check_retry_loop_lem db = ground (
      arith,
      eq_iff e.user_id "",
      eq_iff e.feature_name "",
      eq_iff e.agent_step "",
      law.incr_reply key db,
      law.count-incr key db key,
      eq_refl key,
      law.count-expire key retry_window (c.incr key db).0 key,
    )

    warnings-from :
        (n : ℕ) (db : Db) → warnings n db + (law.count db key - 5) ≡ law.count db key + n - 5
    unfolding warnings
    warnings-from zero db = omega arith
    warnings-from (suc n) db =
        let (warned, counted) = check_retry_loop_lem db in
        ground (arith, warned, counted, warnings-from n (check_retry_loop f c e db).0)

    -- While Redis can be reached and the window lasts: of n checks of a step with a user, a feature and
    -- a name, which was not counted before, exactly the n - 5 after the fifth are reported.
    pub warnings_lem : (n : ℕ) (db : Db) → law.count db key ≡ 0 → warnings n db ≡ n - 5
    warnings_lem n db start = omega (arith, warnings-from n db, start)
