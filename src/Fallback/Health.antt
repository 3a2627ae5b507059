-- ===== src/Fallback/Health.antt =====
-- What the failure counts promise of one provider, and that the two Redis keys keep it.
use ajah.Prelude.{
  ℕ, suc, ◌≡◌, refl, ap, ◌∙◌, Bool, true, false, ◌||◌, String, str_eq, eq_iff, List, [], ◌∷◌, leb,
  if◌then◌else◌, arith,
}
use ajah.Text.{ascii}
use ajah.Redis.{Redis, IsReachable}
use ajah.Fallback.{Manager, is_enabled, should_fallback, record_failure, record_success, mark_at}
use ajah.Fallback.Keys.{
  degraded_key, fail_key, degraded_key-injective, fail_key-injective, fail_key-unlike_degraded_key,
  degraded_key-unlike_fail_key,
}

-- The recent failures of a provider, and whether it cools down.
pub record Health : Type 0 where
  pub failures : ℕ
  pub is_degraded : Bool

-- What happens to the providers: answers, and the ends of the window and of the cooldown.
pub data Call : Type 0 where
  failed : String → Call
  succeeded : String → Call
  window_over : String → Call
  cooldown_over : String → Call

abbrev counted : Health → Health
counted h = record {
  failures = suc h.failures;
  is_degraded = h.is_degraded || leb 3 (suc h.failures);
}

abbrev cleared : Health → Health
cleared h = record { failures = 0; is_degraded = h.is_degraded }

abbrev cooled : Health → Health
cooled h = record { failures = h.failures; is_degraded = false }

-- What a call means for one provider: nothing, if it is a call of another one.
unfoldable pub step_health : String → Call → Health → Health
step_health p (failed q) h = if str_eq q p then counted h else h
step_health p (succeeded q) h = if str_eq q p then cleared h else h
step_health p (window_over q) h = if str_eq q p then cleared h else h
step_health p (cooldown_over q) h = if str_eq q p then cooled h else h

unfoldable pub run_health : String → List Call → Health → Health
run_health p [] h = h
run_health p (c ∷ cs) h = run_health p cs (step_health p c h)

pub Health-ext : {g h : Health} → g.failures ≡ h.failures → g.is_degraded ≡ h.is_degraded → g ≡ h
Health-ext e f = λ i. record { failures = e i; is_degraded = f i }

module _ (r : Redis) (law : IsReachable r) (m : Manager) where
  open r use {Db}

  unfoldable pub perform : Call → Db → Db
  perform (failed p) db = record_failure r m p db
  perform (succeeded p) db = record_success r m p db
  perform (window_over p) db = law.expire_now (fail_key p) db
  perform (cooldown_over p) db = law.expire_now (degraded_key p) db

  unfoldable pub perform_all : List Call → Db → Db
  perform_all [] db = db
  perform_all (c ∷ cs) db = perform_all cs (perform c db)

  -- What the two keys of a provider say.
  abbrev pub view : String → Db → Health
  view p db = record {
    failures = law.counter db (fail_key p);
    is_degraded = law.holds db (degraded_key p);
  }

  module _ (enabled : is_enabled m ≡ true) (connected : m.connected ≡ true) where
    record_failure_lem :
        (q : String) (db : Db)
        → record_failure r m q db ≡ (
            if leb 3 (suc (law.counter db (fail_key q)))
            then (r.set (degraded_key q) (ascii "1") 120 (r.incr_expire (fail_key q) 60 db).0).0
            else (r.incr_expire (fail_key q) 60 db).0)
    unfolding record_failure mark_at
    record_failure_lem q db = ground (arith, law.incr_reply (fail_key q) 60 db)

    failures-failed :
        (p q : String) (db : Db)
        → (view p (record_failure r m q db)).failures
          ≡ (step_health p (failed q) (view p db)).failures
    unfolding step_health
    failures-failed p q db =
        let counted_db : Db = (r.incr_expire (fail_key q) 60 db).0 in
        ground (
          arith,
          record_failure_lem q db,
          law.counter-set (degraded_key q) (ascii "1") 120 counted_db (fail_key p),
          law.counter-incr (fail_key q) 60 db (fail_key p),
          fail_key-injective q p,
          degraded_key-unlike_fail_key q p,
          eq_iff q p,
        )

    is_degraded-failed :
        (p q : String) (db : Db)
        → (view p (record_failure r m q db)).is_degraded
          ≡ (step_health p (failed q) (view p db)).is_degraded
    unfolding step_health
    is_degraded-failed p q db =
        let counted_db : Db = (r.incr_expire (fail_key q) 60 db).0 in
        ground (
          arith,
          record_failure_lem q db,
          law.holds-set (degraded_key q) (ascii "1") 120 counted_db (degraded_key p),
          law.holds-incr (fail_key q) 60 db (degraded_key p),
          degraded_key-injective q p,
          fail_key-unlike_degraded_key q p,
          eq_iff q p,
        )

    pub view-failed :
        (p q : String) (db : Db)
        → view p (record_failure r m q db) ≡ step_health p (failed q) (view p db)
    view-failed p q db = Health-ext (failures-failed p q db) (is_degraded-failed p q db)

    pub view-succeeded :
        (p q : String) (db : Db)
        → view p (record_success r m q db) ≡ step_health p (succeeded q) (view p db)
    unfolding record_success step_health
    view-succeeded p q db = ground (
      arith,
      eq_iff q p,
      law.counter-del (fail_key q) db (fail_key p),
      law.holds-del (fail_key q) db (degraded_key p),
      fail_key-injective q p,
      fail_key-unlike_degraded_key q p,
    )

    view-perform :
        (p : String) (c : Call) (db : Db) → view p (perform c db) ≡ step_health p c (view p db)
    unfolding perform step_health
    view-perform p (failed q) db = view-failed p q db
    view-perform p (succeeded q) db = view-succeeded p q db
    view-perform p (window_over q) db = ground (
      arith,
      eq_iff q p,
      law.counter-expire (fail_key q) db (fail_key p),
      law.holds-expire (fail_key q) db (degraded_key p),
      fail_key-injective q p,
      fail_key-unlike_degraded_key q p,
    )
    view-perform p (cooldown_over q) db = ground (
      arith,
      eq_iff q p,
      law.counter-expire (degraded_key q) db (fail_key p),
      law.holds-expire (degraded_key q) db (degraded_key p),
      degraded_key-injective q p,
      degraded_key-unlike_fail_key q p,
    )

    pub view-perform_all :
        (p : String) (cs : List Call) (db : Db)
        → view p (perform_all cs db) ≡ run_health p cs (view p db)
    unfolding perform_all run_health
    view-perform_all p [] db = refl
    view-perform_all p (c ∷ cs) db =
        view-perform_all p cs (perform c db) ∙ ap (run_health p cs) (view-perform p c db)

    -- With a configured fallback and a connected client, while Redis can be reached and after any
    -- answers and any ends of windows and cooldowns of any providers: whether a provider's requests go
    -- to the fallback is the cooldown flag of that provider's own history alone, in which a failure
    -- counts one and raises the flag from the third on, a success or the end of the window clears the
    -- count and not the flag, and the end of the cooldown clears the flag and not the count.
    pub should_fallback-perform_all :
        (p : String) (cs : List Call) (db : Db)
        → should_fallback r m p (perform_all cs db) ≡ (run_health p cs (view p db)).is_degraded
    unfolding should_fallback
    should_fallback-perform_all p cs db = ground (
      arith,
      law.exists_lem (degraded_key p) (perform_all cs db),
      ap (λ (h : Health). h.is_degraded) (view-perform_all p cs db),
    )
