-- ===== src/Fallback/Threshold.antt =====
-- When a run of failures starts the cooldown, and the reported status of a provider.
use ajah.Prelude.{
  ℕ, zero, suc, ◌+◌, ◌≡◌, ap, ◌∙◌, true, ◌||◌, String, eq_iff, List, leb, if◌then◌else◌, arith,
  replicate,
}
use ajah.Redis.{Redis, IsReachable}
use ajah.Fallback.{
  Manager, is_enabled, should_fallback, Status, degraded, failing, healthy, status_of,
}
use ajah.Fallback.Keys.{degraded_key, fail_key}
use ajah.Fallback.Health.{
  Health, Call, failed, step_health, run_health, perform_all, view, view-perform_all,
  should_fallback-perform_all,
}

step_health-failed :
    (p : String) (h : Health)
    → step_health p (failed p) h
      ≡ record { failures = suc h.failures; is_degraded = h.is_degraded || leb 3 (suc h.failures) }
unfolding step_health
step_health-failed p h = ground (arith, eq_iff p p)

run_health-failures :
    (p : String) (n : ℕ) (h : Health)
    → (run_health p (replicate (suc n) (failed p)) h).is_degraded
      ≡ (h.is_degraded || leb 3 (h.failures + suc n))
unfolding run_health
run_health-failures p zero h = ground (arith, step_health-failed p h)
run_health-failures p (suc n) h =
    run_health-failures p n (step_health p (failed p) h) ∙ ground (arith, step_health-failed p h)

-- The status that a provider's history calls for; a cooldown shows the seconds that are left.
abbrev pub expected_status : ℕ → Health → Status
expected_status left h =
    if h.is_degraded
    then degraded left
    else if leb 1 h.failures
    then failing h.failures
    else healthy

module _ (r : Redis) (law : IsReachable r) (m : Manager) where
  open r use {Db}

  -- With a configured fallback and a connected client, while Redis can be reached: after n + 1
  -- failures of a provider in a row, its requests go to the fallback if they did before, or if the
  -- failures that were counted before and these are three or more; otherwise they do not.
  pub should_fallback-failures :
      is_enabled m ≡ true
      → m.connected ≡ true
      → (p : String) (n : ℕ) (db : Db)
      → should_fallback r m p (perform_all r law m (replicate (suc n) (failed p)) db)
        ≡ (should_fallback r m p db || leb 3 (law.counter db (fail_key p) + suc n))
  unfolding should_fallback
  should_fallback-failures enabled connected p n db =
      should_fallback-perform_all r law m enabled connected p (replicate (suc n) (failed p)) db
      ∙ run_health-failures p n (view r law m p db)
      ∙ ground (arith, law.exists_lem (degraded_key p) db)

  -- With a configured fallback and a connected client, while Redis can be reached and after any
  -- answers and any ends of windows and cooldowns: the reported status of a provider is degraded just
  -- when its history has it cooling down, and otherwise gives the failures of its history, if any.
  pub status_of-perform_all :
      is_enabled m ≡ true
      → m.connected ≡ true
      → (p : String) (cs : List Call) (db : Db)
      → status_of r p (perform_all r law m cs db)
        ≡ expected_status
            (r.ttl (degraded_key p) (perform_all r law m cs db))
            (run_health p cs (view r law m p db))
  unfolding status_of
  status_of-perform_all enabled connected p cs db =
      let after : Db = perform_all r law m cs db in
      ground (
        arith,
        law.exists_lem (degraded_key p) after,
        law.get_int_lem (fail_key p) after,
        ap (λ (h : Health). h.is_degraded) (view-perform_all r law m enabled connected p cs db),
        ap (λ (h : Health). h.failures) (view-perform_all r law m enabled connected p cs db),
      )
