-- ===== src/Gateway/Windows.antt =====
-- How many requests of a feature pass in a minute.
use Prim.Native.String.{len}
use ajah.Prelude.{
  ℕ, suc, ◌+◌, ◌<◌, min, ◌≡◌, ◌≢◌, ap, ◌∙◌, Bool, true, false, ◌&&◌, String, str_eq, eq_iff, List,
  [], ◌∷◌, All, ltb, if◌then◌else◌, Bool-cases, inl, inr, arith,
}
use ajah.Float.{Float64}
use ajah.Text.Prefixes.{joined_eq}
use ajah.Redis.Counters.{Counters, IsCounting}
use ajah.Config.{pos}
use ajah.Db.Settings.{Caches, rate_limit_rpm_for}
use ajah.Gateway.Limits.{passes, limit_key, limit_window, after_tick, limit_rate}

-- A request's feature, minute and second.
pub record Arrival : Type 0 where
  pub feature : String
  pub minute : String
  pub second : ℕ

abbrev pub is_in : String → String → Arrival → Bool
is_in feature minute a = str_eq a.feature feature && str_eq a.minute minute

abbrev pub arrivals_in : String → String → List Arrival → ℕ
arrivals_in feature minute [] = 0
arrivals_in feature minute (a ∷ as_) =
    (if is_in feature minute a then 1 else 0) + arrivals_in feature minute as_

module _ (f : Float64) {Db : Type 0} (c : Counters f Db) (caches : Caches f)
    (feature minute : String) where
  -- How many requests of the feature and the minute pass, of any requests one after the other.
  unfoldable pub passed_in : List Arrival → Db → ℕ
  passed_in [] db = 0
  passed_in (a ∷ as_) db =
      (if is_in feature minute a && passes (limit_rate f c caches a.feature a.minute a.second db).1
        then 1
        else 0)
      + passed_in as_ (limit_rate f c caches a.feature a.minute a.second db).0

  module _ (law : IsCounting f Db c) (limit : ℕ) (given : feature ≢ "")
      (limited : rate_limit_rpm_for f caches feature ≡ pos limit) (positive : 0 < limit) where
    abbrev counted : Db → ℕ
    counted db = law.count db (limit_key feature minute)

    limit_rate-own :
        (second : ℕ) (db : Db)
        → (counted (limit_rate f c caches feature minute second db).0 ≡ suc (counted db))
          × (passes (limit_rate f c caches feature minute second db).1 ≡ ltb (counted db) limit)
    unfolding limit_rate after_tick
    limit_rate-own second db =
        let key : String = limit_key feature minute in
        ground (
          arith,
          eq_iff feature "",
          limited,
          law.incr_reply key db,
          law.count-incr key db key,
          eq_iff key key,
          law.count-expire key limit_window (c.incr key db).0 key,
        )

    limit_rate-in :
        (a : Arrival) (db : Db)
        → is_in feature minute a ≡ true
        → (counted (limit_rate f c caches a.feature a.minute a.second db).0 ≡ suc (counted db))
          × (passes (limit_rate f c caches a.feature a.minute a.second db).1
              ≡ ltb (counted db) limit)
    limit_rate-in a db own =
        let named : a.feature ≡ feature = ground (arith, eq_iff a.feature feature) in
        let timed : a.minute ≡ minute = ground (arith, eq_iff a.minute minute) in
        let same : limit_rate f c caches a.feature a.minute a.second db
            ≡ limit_rate f c caches feature minute a.second db =
          ap (λ n. limit_rate f c caches n a.minute a.second db) named
          ∙ ap (λ m. limit_rate f c caches feature m a.second db) timed in
        let (counts, lets) = limit_rate-own a.second db in
        (ap (λ r. counted r.0) same ∙ counts, ap (λ r. passes r.1) same ∙ lets)

    limit_rate-other :
        (a : Arrival) (db : Db)
        → len a.minute ≡ len minute
        → is_in feature minute a ≡ false
        → counted (limit_rate f c caches a.feature a.minute a.second db).0 ≡ counted db
    unfolding limit_rate after_tick limit_key
    limit_rate-other a db same other =
        let key : String = limit_key a.feature a.minute in
        let apart : str_eq key (limit_key feature minute) ≡ false =
          joined_eq "ratelimit:" ":" a.feature feature a.minute minute same ∙ other in
        ground (
          arith,
          apart,
          law.incr_reply key db,
          law.count-incr key db (limit_key feature minute),
          law.count-expire key limit_window (c.incr key db).0 (limit_key feature minute),
        )

    passed_in-from :
        (as_ : List Arrival) (db : Db)
        → All (λ (a : Arrival). len a.minute ≡ len minute) as_
        → passed_in as_ db + min (counted db) limit
          ≡ min (counted db + arrivals_in feature minute as_) limit
    unfolding passed_in
    passed_in-from [] db h = omega arith
    passed_in-from (a ∷ as_) db h = elim (Bool-cases (is_in feature minute a)) [
      | inl own ↦
          let (counts, lets) = limit_rate-in a db own in
          ground (
            arith,
            counts,
            lets,
            passed_in-from as_ (limit_rate f c caches a.feature a.minute a.second db).0 h.1,
          )
      | inr other ↦ ground (
        arith,
        limit_rate-other a db h.0 other,
        passed_in-from as_ (limit_rate f c caches a.feature a.minute a.second db).0 h.1,
      )
    ]

    -- A feature that is limited to a positive number of requests, while Redis can be reached: of any
    -- requests, of any features and of minutes that are written with as many characters, as many of the
    -- feature pass in a minute that was not counted before as it has, up to the limit.
    pub passed_in_lem :
        (as_ : List Arrival) (db : Db)
        → All (λ (a : Arrival). len a.minute ≡ len minute) as_
        → law.count db (limit_key feature minute) ≡ 0
        → passed_in as_ db ≡ min (arrivals_in feature minute as_) limit
    passed_in_lem as_ db h start = omega (arith, passed_in-from as_ db h, start)
